-- ===== src/Reasoning/Temporal.antt =====
-- The validity windows of edges and paths: schemas.py and reasoning.py.
pub mod Compatible
use nesy_reasoning_mcp.Prelude.{
  String, Bool, true, not, Option, some, none, List, [], ◌∷◌, if◌then◌else◌,
}
use nesy_reasoning_mcp.Schemas.{CanonicalImplicationEdge, TemporalWindow}
use nesy_reasoning_mcp.TimeUtils.{Datetime, utc, before, parse_datetime_value}
use nesy_reasoning_mcp.Reasoning.Paths.{ReasoningPath}

pub record Window : Type 0 where
  pub start : Option Datetime
  pub end : Option Datetime

abbrev pub always : Window
always = record { start = none; end = none }

-- `bound if old is None else max(old, bound)`, where no bound changes nothing
unfoldable pub later_start : Option Datetime → Option Datetime → Option Datetime
later_start old none = old
later_start none (some b) = some b
later_start (some a) (some b) = some (if before a b then b else a)

unfoldable pub earlier_end : Option Datetime → Option Datetime → Option Datetime
earlier_end old none = old
earlier_end none (some b) = some b
earlier_end (some a) (some b) = some (if before b a then b else a)

abbrev pub meet : Window → Window → Window
meet w x = record { start = later_start w.start x.start; end = earlier_end w.end x.end }

module _ (iso : String → Datetime) where
  window_of : Option TemporalWindow → Window
  window_of none = always
  window_of (some t) = record {
    start = parse_datetime_value iso t.valid_from (some utc) none;
    end = parse_datetime_value iso t.valid_to (some utc) none;
  }

  unfoldable pub edge_window : CanonicalImplicationEdge → Window
  unfolding window_of
  edge_window e = window_of e.temporal

  abbrev pub edges_window : Window → List CanonicalImplicationEdge → Window
  edges_window w [] = w
  edges_window w (e ∷ es) = edges_window (meet w (edge_window e)) es

  unfoldable pub path_window : ReasoningPath → Window
  path_window p = edges_window always p.edges

  abbrev pub paths_window : Window → List ReasoningPath → Window
  paths_window w [] = w
  paths_window w (p ∷ ps) = paths_window (meet w (path_window p)) ps

abbrev pub in_order : Option Datetime → Option Datetime → Bool
in_order (some start) (some end) = not (before end start)
in_order _ _ = true

unfoldable pub paths_temporally_compatible : (String → Datetime) → List ReasoningPath → Bool
paths_temporally_compatible iso paths =
    let w = paths_window iso always paths in in_order w.start w.end
