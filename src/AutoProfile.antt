-- ===== src/AutoProfile.antt =====
-- python/ttl/_src/auto_profile.py: the names of signposts, the durations between them, and which
-- transfers a kernel waits for.
--
-- A text is the list of its code points, and its digits are those of ASCII. Reading the files is left
-- out, and so is the printed report. Python's `int` and `strip` are parameters; `int` gives `none` where
-- it raises a ValueError. A number that is missing is `none`, the source's -1; no other is negative.
pub mod Signposts
pub mod Flow
mod Tests
use tt_lang.Prelude.{
  ℤ, sub_ℕ, ℕ, ◌+◌, List, [], ◌∷◌, ◌++◌, length, get_elem?, drop, Option, none, some, Bool, true,
  false, ◌&&◌, if◌then◌else◌, ltb, leb, ◌==◌,
}

abbrev pub Text : Type 0
Text = List ℕ

abbrev pub same_list : Text → Text → Bool
same_list [] [] = true
same_list [] (b ∷ bs) = false
same_list (a ∷ as') [] = false
same_list (a ∷ as') (b ∷ bs) = (a == b) && same_list as' bs

abbrev pub is_digit : ℕ → Bool
is_digit c = leb b'0' c && leb c b'9'

-- The regular expression `_L\d+_`: what is left behind a match at the start of a text, and behind the
-- first match in it.
abbrev pub after_digits : Bool → Text → Option Text
after_digits seen [] = none
after_digits seen (c ∷ cs) =
    let rest = after_digits true cs in
    if is_digit c then rest else if seen && (c == b'_') then some cs else none

abbrev pub match_here : Text → Option Text
match_here [] = none
match_here (a ∷ []) = none
match_here (a ∷ c ∷ cs) = if (a == b'_') && (c == b'L') then after_digits false cs else none

abbrev pub or_else : Option Text → Option Text → Option Text
or_else none o = o
or_else (some t) o = some t

unfoldable pub search_mark : Text → Option Text
search_mark [] = none
search_mark (c ∷ cs) = or_else (match_here (c ∷ cs)) (search_mark cs)

abbrev pub starts_with : Text → Text → Bool
starts_with t [] = true
starts_with [] (p ∷ ps) = false
starts_with (c ∷ cs) (p ∷ ps) = (c == p) && starts_with cs ps

-- "implicit_"
abbrev pub implicit_prefix : Text
implicit_prefix = b'i' ∷ b'm' ∷ b'p' ∷ b'l' ∷ b'i' ∷ b'c' ∷ b'i' ∷ b't' ∷ b'_' ∷ []

abbrev pub split_op : Option Text → Option Text × Bool
split_op none = (none, false)
split_op (some rest) =
    if starts_with rest implicit_prefix
    then (some (drop (length implicit_prefix) rest), true)
    else (some rest, false)

unfoldable pub parse_signpost_name : Text → Option Text × Bool
unfolding search_mark
parse_signpost_name signpost = split_op (search_mark signpost)

-- SourceLineMapper: the line and the source of a signpost.
abbrev pub LineMapper : Type 0
LineMapper = List (Text × (ℕ × Text))

abbrev pub register_signpost : Text → ℕ → Text → LineMapper → LineMapper
register_signpost name lineno source [] = (name, (lineno, source)) ∷ []
register_signpost name lineno source ((n, info) ∷ m) =
    if same_list n name
    then (n, (lineno, source)) ∷ m
    else (n, info) ∷ register_signpost name lineno source m

abbrev pub get_line_info : LineMapper → Text → Option (ℕ × Text)
get_line_info [] name = none
get_line_info ((n, info) ∷ m) name = if same_list n name then some info else get_line_info m name

pub record ProfileResult : Type 0 where
  pub signpost : Text
  pub thread : Text
  pub cycles : ℤ
  pub lineno : ℕ
  pub source : Text
  pub op_name : Option Text
  pub implicit : Bool

-- The starts of signposts by thread and signpost.
abbrev pub SignpostStarts : Type 0
SignpostStarts = List (Text × ℕ)

abbrev pub start_of : Text → SignpostStarts → Option ℕ
start_of k [] = none
start_of k ((j, t) ∷ starts) = if same_list j k then some t else start_of k starts

abbrev pub put_start : Text → ℕ → SignpostStarts → SignpostStarts
put_start k t [] = (k, t) ∷ []
put_start k t ((j, u) ∷ starts) =
    if same_list j k then (j, t) ∷ starts else (j, u) ∷ put_start k t starts

abbrev pub del_start : Text → SignpostStarts → SignpostStarts
del_start k [] = []
del_start k ((j, u) ∷ starts) = if same_list j k then starts else (j, u) ∷ del_start k starts

-- "ZONE_START" and "ZONE_END"
abbrev pub zone_start : Text
zone_start = b'Z' ∷ b'O' ∷ b'N' ∷ b'E' ∷ b'_' ∷ b'S' ∷ b'T' ∷ b'A' ∷ b'R' ∷ b'T' ∷ []

abbrev pub zone_end : Text
zone_end = b'Z' ∷ b'O' ∷ b'N' ∷ b'E' ∷ b'_' ∷ b'E' ∷ b'N' ∷ b'D' ∷ []

-- `sort` by line number, which keeps the order of equal ones.
abbrev pub insert_result : ProfileResult → List ProfileResult → List ProfileResult
insert_result r [] = r ∷ []
insert_result r (q ∷ qs) = if leb r.lineno q.lineno then r ∷ q ∷ qs else q ∷ insert_result r qs

unfoldable pub sort_results : List ProfileResult → List ProfileResult
sort_results [] = []
sort_results (r ∷ rs) = insert_result r (sort_results rs)

module _ (int : Text → Option ℕ) (strip : Text → Text) (line_mapper : LineMapper) where
  unfoldable pub profile_result : Text → Text → ℤ → ℕ × Text → ProfileResult
  unfolding parse_signpost_name
  profile_result signpost thread cycles (lineno, source) = record {
    signpost = signpost;
    thread = thread;
    cycles = cycles;
    lineno = lineno;
    source = strip source;
    op_name = (parse_signpost_name signpost).0;
    implicit = (parse_signpost_name signpost).1;
  }

  abbrev pub result_of : Text → Text → ℤ → Option (ℕ × Text) → List ProfileResult
  result_of signpost thread cycles none = []
  result_of signpost thread cycles (some info) = profile_result signpost thread cycles info ∷ []

  abbrev pub end_signpost :
      Text → Text → Text → ℕ → Option ℕ → SignpostStarts → List ProfileResult × SignpostStarts
  end_signpost key thread signpost timestamp none starts = ([], starts)
  end_signpost key thread signpost timestamp (some start_ts) starts = (
    result_of signpost thread (sub_ℕ timestamp start_ts) (get_line_info line_mapper signpost),
    del_start key starts,
  )

  -- A row with its timestamp: the results that it gives, and the starts behind it.
  abbrev pub zone_row :
      ℕ → Text → Text → Text → SignpostStarts → List ProfileResult × SignpostStarts
  zone_row timestamp thread signpost zone_type starts =
      let key = thread ++ (b'_' ∷ signpost) in
      if same_list signpost []
      then ([], starts)
      else if same_list zone_type zone_start
      then ([], put_start key timestamp starts)
      else if same_list zone_type zone_end
      then end_signpost key thread signpost timestamp (start_of key starts) starts
      else ([], starts)

  abbrev pub text_or_empty : Option Text → Text
  text_or_empty none = []
  text_or_empty (some t) = t

  abbrev pub timed_row : Option ℕ → List Text → SignpostStarts → List ProfileResult × SignpostStarts
  timed_row none row starts = ([], starts)
  timed_row (some timestamp) row starts =
      zone_row timestamp (text_or_empty (get_elem? row 3)) (text_or_empty (get_elem? row 10))
        (text_or_empty (get_elem? row 11)) starts

  unfoldable pub csv_row : List Text → SignpostStarts → List ProfileResult × SignpostStarts
  unfolding profile_result
  csv_row row starts =
      if ltb (length row) 13
      then ([], starts)
      else timed_row (int (text_or_empty (get_elem? row 5))) row starts

  abbrev pub csv_rows : List (List Text) → SignpostStarts → List ProfileResult
  csv_rows [] starts = []
  csv_rows (row ∷ rows) starts =
      let (results, starts') = csv_row row starts in results ++ csv_rows rows starts'

  -- The rows behind the header.
  unfoldable pub parse_device_profile_csv : List (List Text) → List ProfileResult
  unfolding csv_row sort_results
  parse_device_profile_csv rows = sort_results (csv_rows rows [])

-- The flow graph of the circular buffers.
pub record Op : Type 0 where
  pub kernel : Text
  pub line : Option ℕ
  pub direction : Text

pub record CbInfo : Type 0 where
  pub cb_index : Option ℕ
  pub wait_ops : List Op
  pub dma_ops : List Op
  pub producers : List Op
  pub consumers : List Op

-- A location, and what is waited for there: the kernel and line of its source, the buffer, and
-- whether the source is a DMA or compute.
abbrev pub Location : Type 0
Location = Text × ℕ

pub data Label : Type 0 where
  dma compute : Label

pub record Source : Type 0 where
  pub kernel : Text
  pub line : Option ℕ
  pub cb_index : Option ℕ
  pub label : Label

abbrev pub same_location : Location → Location → Bool
same_location a b = same_list a.0 b.0 && (a.1 == b.1)

-- `result[key] = value`
abbrev pub assign : {V : Type 0} → Location → V → List (Location × V) → List (Location × V)
assign k v [] = (k, v) ∷ []
assign k v ((j, w) ∷ m) = if same_location j k then (j, v) ∷ m else (j, w) ∷ assign k v m

abbrev pub find_at : {V : Type 0} → Location → List (Location × V) → Option V
find_at k [] = none
find_at k ((j, v) ∷ m) = if same_location j k then some v else find_at k m

-- "read" and "write"
abbrev pub read_text : Text
read_text = b'r' ∷ b'e' ∷ b'a' ∷ b'd' ∷ []

abbrev pub write_text : Text
write_text = b'w' ∷ b'r' ∷ b'i' ∷ b't' ∷ b'e' ∷ []

-- The first operation of a direction.
abbrev pub first_of : Text → List Op → Option Op
first_of direction [] = none
first_of direction (op ∷ ops) =
    if same_list op.direction direction then some op else first_of direction ops

abbrev pub head : List Op → Option Op
head [] = none
head (op ∷ ops) = some op

-- Where a line is positive, the location of an operation.
abbrev pub positive : Option ℕ → Option ℕ
positive none = none
positive (some n) = if ltb 0 n then some n else none

abbrev pub assign_at :
    {V : Type 0} → Text → Option ℕ → V → List (Location × V) → List (Location × V)
assign_at kernel none v m = m
assign_at kernel (some line) v m = assign (kernel, line) v m

-- The loop over the consumers of a buffer.
abbrev pub map_consumers : Source → List Op → List (Location × Source) → List (Location × Source)
map_consumers src [] m = m
map_consumers src (op ∷ ops) m =
    map_consumers src ops (assign_at op.kernel (positive op.line) src m)

-- What the consumers of a buffer wait for, if anything: its first read barrier, or its first producer
-- where it has a write of DMA.
abbrev pub write_source : CbInfo → Option Op → Option Op → Option Source
write_source cb none producer = none
write_source cb (some op) none = none
write_source cb (some op) (some p) =
    some record { kernel = p.kernel; line = p.line; cb_index = cb.cb_index; label = compute }

abbrev pub source_of : CbInfo → Option Op → Option Source
source_of cb (some b) =
    some record { kernel = b.kernel; line = b.line; cb_index = cb.cb_index; label = dma }
source_of cb none = write_source cb (first_of write_text cb.dma_ops) (head cb.producers)

abbrev pub map_from : Option Source → List Op → List (Location × Source) → List (Location × Source)
map_from none ops m = m
map_from (some src) ops m = map_consumers src ops m

abbrev pub map_buffers : List CbInfo → List (Location × Source) → List (Location × Source)
map_buffers [] m = m
map_buffers (cb ∷ cbs) m =
    map_buffers cbs (map_from (source_of cb (first_of read_text cb.wait_ops)) cb.consumers m)

unfoldable pub build_cb_wait_to_dma_map : List CbInfo → List (Location × Source)
build_cb_wait_to_dma_map cbs = map_buffers cbs []

-- Buffers with a background; an index that is missing has none.
abbrev pub has_background : ℕ → Option ℕ → Bool
has_background n none = false
has_background n (some i) = ltb i n

abbrev pub index_or_zero : Option ℕ → ℕ
index_or_zero none = 0
index_or_zero (some i) = i

abbrev pub map_barriers : ℕ → List Op → List (Location × ℕ) → List (Location × ℕ)
map_barriers cb_index [] m = m
map_barriers cb_index (op ∷ ops) m = map_barriers cb_index ops (
    if same_list op.direction read_text
    then assign_at op.kernel (positive op.line) cb_index m
    else m)

-- For a number of backgrounds.
abbrev pub map_producers : ℕ → List CbInfo → List (Location × ℕ) → List (Location × ℕ)
map_producers backgrounds [] m = m
map_producers backgrounds (cb ∷ cbs) m = map_producers backgrounds cbs (
    if has_background backgrounds cb.cb_index
    then map_barriers (index_or_zero cb.cb_index) cb.wait_ops m
    else m)

unfoldable pub build_dma_producer_to_cb_map : ℕ → List CbInfo → List (Location × ℕ)
build_dma_producer_to_cb_map backgrounds cbs = map_producers backgrounds cbs []
