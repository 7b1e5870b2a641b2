-- ===== src/Trace/Types.antt =====
-- internal/trace/types.go: the vertices and edges of the path graph. Drawing coordinates are whole
-- numbers: the float64 values that layout.go computes are.
use netobserv_spcg.Common.{ℕ, String, Bool}

pub record TraceNode : Type 0 where
  pub id : String
  pub label : String
  pub kind : String
  pub layer : String
  pub namespace : String
  pub rank : ℕ
  pub track : String
  pub x : ℕ
  pub y : ℕ
  pub width : ℕ
  pub height : ℕ
  pub tracked : Bool
  pub focused : Bool
  pub status : String
  pub detail : String

pub record TraceEdge : Type 0 where
  pub id : String
  pub from : String
  pub to : String
  pub edge_type : String
  pub primary : Bool
  pub drop : Bool
  pub label : String

pub record PathSummary : Type 0 where
  pub direction : String
  pub resource : String
  pub namespace : String
  pub kind : String
  pub status : String
  pub detail : String

pub record TraceGraphStats : Type 0 where
  pub total_nodes : ℕ
  pub focused_nodes : ℕ
  pub logical_nodes : ℕ
  pub physical_nodes : ℕ
  pub pruned_nodes : ℕ

pub record TraceLane : Type 0 where
  pub label : String
  pub rank : ℕ
  pub x : ℕ
  pub width : ℕ
  pub y : ℕ
  pub height : ℕ
  pub track : String
