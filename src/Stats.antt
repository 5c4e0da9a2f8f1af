-- ===== src/Stats.antt =====
-- python/sim/stats.py: the counters of tensors, pipes and dataflow buffers, and their report.
--
-- The lock is left out, since all threads of the simulator run on one thread of the operating
-- system. The decimal text of a number, Python's `str`, is the parameter `str`.
pub mod Counts
pub mod Report
pub mod History
pub mod Sums
pub mod Agree
pub mod Totals
pub mod Names
mod Tests
use Prim.Native.String.{String, ◌++◌ as str_append}
use text.Mathlib.Text.{◌==◌ as str_eq}
use tt_lang.Prelude.{
  ℤ, pos, ℕ, ◌+◌, ◌*◌, ◌/◌, ◌%◌, List, [], ◌∷◌, map, Option, none, some, Bool, true, false,
  if◌then◌else◌,
}
use tt_lang.CoreContext.{CoreCoord}
use tt_lang.Pipe.{Pipe, Item, Dst, or_else}

-- What the statistics read of a tensor: `_name`, `id(tensor)` and the shape.
pub record TensorInfo : Type 0 where
  pub name : Option String
  pub ident : ℕ
  pub shape : List ℕ

-- What they read of a dataflow buffer: `_stats_name` and `_dfb_id`.
pub record DfbInfo : Type 0 where
  pub stats_name : Option String
  pub dfb_id : Option ℕ

pub record Counters : Type 0 where
  pub reads : ℕ
  pub writes : ℕ
  pub tiles_read : ℕ
  pub tiles_written : ℕ

pub record DfbCounters : Type 0 where
  pub reserves : ℕ
  pub waits : ℕ
  pub tiles_reserved : ℕ
  pub tiles_waited : ℕ

abbrev pub Table : Type 0 → Type 0
Table V = List (String × V)

-- The globals of the file.
pub record Stats : Type 0 where
  pub stats_enabled : Bool
  pub stats_by_name : Table Counters
  pub pipe_stats_by_name : Table Counters
  pub dfb_stats_by_name : Table DfbCounters
  pub dfb_name_counter : ℕ

abbrev pub no_counters : Counters
no_counters = record { reads = 0; writes = 0; tiles_read = 0; tiles_written = 0 }

abbrev pub no_dfb_counters : DfbCounters
no_dfb_counters = record { reserves = 0; waits = 0; tiles_reserved = 0; tiles_waited = 0 }

-- `["reads"] += 1` and `["tiles_read"] += num_tiles`, and the like.
abbrev pub add_read : ℕ → Counters → Counters
add_read num_tiles c = record c { reads = c.reads + 1; tiles_read = c.tiles_read + num_tiles }

abbrev pub add_write : ℕ → Counters → Counters
add_write num_tiles c = record c {
  writes = c.writes + 1;
  tiles_written = c.tiles_written + num_tiles;
}

abbrev pub add_reserve : ℕ → DfbCounters → DfbCounters
add_reserve num_tiles c = record c {
  reserves = c.reserves + 1;
  tiles_reserved = c.tiles_reserved + num_tiles;
}

abbrev pub add_wait : ℕ → DfbCounters → DfbCounters
add_wait num_tiles c = record c { waits = c.waits + 1; tiles_waited = c.tiles_waited + num_tiles }

-- The entry of a `defaultdict`, and a change of it, which makes the entry if it is missing.
module _ {V : Type 0} (default : V) where
  abbrev pub entry : String → Table V → V
  entry k [] = default
  entry k ((j, v) ∷ t) = if str_eq j k then v else entry k t

  abbrev pub change : String → (V → V) → Table V → Table V
  change k f [] = (k, f default) ∷ []
  change k f ((j, v) ∷ t) = if str_eq j k then (j, f v) ∷ t else (j, v) ∷ change k f t

abbrev pub enable_stats : Stats → Stats
enable_stats s = record s { stats_enabled = true }

abbrev pub disable_stats : Stats → Stats
disable_stats s = record s { stats_enabled = false }

abbrev pub reset_stats : Stats → Stats
reset_stats s = record s {
  stats_by_name = [];
  pipe_stats_by_name = [];
  dfb_stats_by_name = [];
  dfb_name_counter = 0;
}

abbrev pub register_tensor_name : TensorInfo → String → TensorInfo
register_tensor_name t name = record t { name = some name }

abbrev pub register_dfb_name : DfbInfo → String → DfbInfo
register_dfb_name d name = record d { stats_name = some name }

-- `if name:`, which an empty text fails.
abbrev pub truthy : Option String → Option String
truthy none = none
truthy (some name) = if str_eq name "" then none else some name

abbrev pub name_or : Option String → String → String
name_or none other = other
name_or (some name) other = name

-- `math.ceil(n / 32)`, for each side of a TILE_SHAPE.
abbrev pub ceil_tiles : ℕ → ℕ
ceil_tiles n = (n + 31) / 32

-- A shape that is not of two dimensions counts for nothing.
abbrev pub shape_tiles : List ℕ → ℕ
shape_tiles (h ∷ w ∷ []) = ceil_tiles h * ceil_tiles w
shape_tiles _ = 0

unfoldable pub calculate_tensor_tiles : TensorInfo → ℕ
calculate_tensor_tiles t = shape_tiles t.shape

unfoldable pub calculate_block_tiles : List TensorInfo → ℕ
unfolding calculate_tensor_tiles
calculate_block_tiles [] = 0
calculate_block_tiles (t ∷ ts) = calculate_tensor_tiles t + calculate_block_tiles ts

abbrev pub concat : List String → String
concat [] = ""
concat (s ∷ ss) = str_append s (concat ss)

-- `','.join(parts)`
abbrev pub join_commas : List String → String
join_commas [] = ""
join_commas (s ∷ []) = s
join_commas (s ∷ t ∷ ss) = concat (s ∷ "," ∷ join_commas (t ∷ ss) ∷ [])

module _ (str : ℤ → String) where
  unfoldable pub get_tensor_name : TensorInfo → String
  get_tensor_name t =
      name_or (truthy t.name) (concat ("tensor_" ∷ str (pos (t.ident % 10000)) ∷ []))

  abbrev pub coord_text : CoreCoord → String
  coord_text (CoreCoord.index c) = str (pos c)
  coord_text (CoreCoord.tuple cs) =
      concat ("(" ∷ join_commas (map (λ c. str (pos c)) cs) ∷ ")" ∷ [])

  abbrev pub stop_text : Option ℤ → String
  stop_text none = "?"
  stop_text (some n) = str n

  abbrev pub item_text : Item → String
  item_text (Item.fixed k) = str k
  item_text (Item.slice start stop step) =
      concat (str (or_else start (pos 0)) ∷ ":" ∷ stop_text stop ∷ [])

  abbrev pub dst_text : Dst → String
  dst_text (Dst.linear n) = str n
  dst_text (Dst.items xs) = concat ("(" ∷ join_commas (map item_text xs) ∷ ")" ∷ [])

  unfoldable pub get_pipe_name : Pipe → String
  get_pipe_name p =
      concat ("pipe_" ∷ coord_text p.src_core ∷ "_to_" ∷ dst_text p.dst_core_range ∷ [])

  -- The name, and the counter of names that were made up.
  abbrev pub dfb_name : Option String → Option ℕ → ℕ → String × ℕ
  dfb_name (some name) dfb_id n = (name, n)
  dfb_name none (some k) n = (concat ("dfb_" ∷ str (pos k) ∷ []), n)
  dfb_name none none n = (concat ("dfb_unnamed_" ∷ str (pos (n + 1)) ∷ []), n + 1)

  unfoldable pub get_dfb_name : DfbInfo → ℕ → String × ℕ
  get_dfb_name d n = dfb_name (truthy d.stats_name) d.dfb_id n

  unfoldable pub record_tensor_read : TensorInfo → Stats → Stats
  record_tensor_read t s =
      if s.stats_enabled
      then record s {
        stats_by_name =
            change no_counters (get_tensor_name t) (add_read (calculate_tensor_tiles t))
              s.stats_by_name;
      }
      else s

  unfoldable pub record_tensor_write : TensorInfo → Stats → Stats
  record_tensor_write t s =
      if s.stats_enabled
      then record s {
        stats_by_name =
            change no_counters (get_tensor_name t) (add_write (calculate_tensor_tiles t))
              s.stats_by_name;
      }
      else s

  unfoldable pub record_pipe_write : Pipe → List TensorInfo → Stats → Stats
  record_pipe_write p ts s =
      if s.stats_enabled
      then record s {
        pipe_stats_by_name =
            change no_counters (get_pipe_name p) (add_write (calculate_block_tiles ts))
              s.pipe_stats_by_name;
      }
      else s

  unfoldable pub record_pipe_read : Pipe → List TensorInfo → Stats → Stats
  record_pipe_read p ts s =
      if s.stats_enabled
      then record s {
        pipe_stats_by_name =
            change no_counters (get_pipe_name p) (add_read (calculate_block_tiles ts))
              s.pipe_stats_by_name;
      }
      else s

  unfoldable pub record_dfb_reserve : DfbInfo → ℕ → Stats → Stats
  record_dfb_reserve d num_tiles s =
      if s.stats_enabled
      then record s {
        dfb_stats_by_name =
            change no_dfb_counters (get_dfb_name d s.dfb_name_counter).0 (add_reserve num_tiles)
              s.dfb_stats_by_name;
        dfb_name_counter = (get_dfb_name d s.dfb_name_counter).1;
      }
      else s

  unfoldable pub record_dfb_wait : DfbInfo → ℕ → Stats → Stats
  record_dfb_wait d num_tiles s =
      if s.stats_enabled
      then record s {
        dfb_stats_by_name =
            change no_dfb_counters (get_dfb_name d s.dfb_name_counter).0 (add_wait num_tiles)
              s.dfb_stats_by_name;
        dfb_name_counter = (get_dfb_name d s.dfb_name_counter).1;
      }
      else s
