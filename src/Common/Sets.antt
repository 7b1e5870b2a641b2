-- ===== src/Common/Sets.antt =====
-- Go sets of strings, `map[string]struct{}`, and membership under the sorting of a slice.
use Prim.Native.Nat.{◌+◌, ◌≤◌}
use Prim.Native.String.{String}
use mathlib.Core.Path.{◌≡◌, ◌∙◌}
use mathlib.Core.Logic.{◌⊎◌, inl, inr, if_pos, if_neg}
use mathlib.Core.Bool.{Bool, true}
use mathlib.Core.List.{List, [], ◌∷◌}
use native.Mathlib.Omega.{arith}
use netobserv_spcg.Common.Tests.{String-discrete}
use netobserv_spcg.Common.Lists.{length}
use netobserv_spcg.Common.Maps.{
  Map, insert, contains, contains-insert, contains-insert_self, length-insert-le,
}

abbrev pub IdSet : Type 0
IdSet = Map String (Unit {0})

abbrev pub has : String → IdSet → Bool
has id ids = contains String-discrete id ids

abbrev pub add : String → IdSet → IdSet
add id ids = insert String-discrete id tt ids

-- The set with each id of a list added.
abbrev pub add_ids : List String → IdSet → IdSet
add_ids [] ids = ids
add_ids (id ∷ rest) ids = add_ids rest (add id ids)

pub has-add_self : (id : String) (ids : IdSet) → has id (add id ids) ≡ true
has-add_self id ids = contains-insert_self String-discrete id tt ids

pub has-add_keeps : (k id : String) (ids : IdSet) → has id ids ≡ true → has id (add k ids) ≡ true
has-add_keeps k id ids h =
    rw (contains-insert String-discrete k id tt ids) (elim (String-discrete k id) [
      | yes p ↦ if_pos (String-discrete k id) p _ _
      | no p ↦ if_neg (String-discrete k id) p _ _ ∙ h
    ])

pub has-add_inv :
    (k id : String) (ids : IdSet) → has id (add k ids) ≡ true → (k ≡ id) ⊎ (has id ids ≡ true)
has-add_inv k id ids h = elim (String-discrete k id) [
  | yes p ↦ inl p
  | no p ↦
      inr (rw (contains-insert String-discrete k id tt ids, if_neg (String-discrete k id) p) at h)
]

pub add_ids_keeps :
    (rest : List String) (id : String) (ids : IdSet)
    → has id ids ≡ true
    → has id (add_ids rest ids) ≡ true
add_ids_keeps [] id ids h = h
add_ids_keeps (k ∷ rest) id ids h = add_ids_keeps rest id (add k ids) (has-add_keeps k id ids h)

pub length-add_ids-le :
    (rest : List String) (ids : IdSet) → length (add_ids rest ids) ≤ length rest + length ids
length-add_ids-le [] ids = omega arith
length-add_ids-le (k ∷ rest) ids =
    omega (arith, length-add_ids-le rest (add k ids), length-insert-le String-discrete k tt ids)
