-- ===== src/AutoProfile/Tests.antt =====
-- Concrete signposts and a concrete flow graph.
use tt_lang.Prelude.{pos, ℕ, ◌≡◌, refl, List, [], ◌∷◌, ◌++◌, Option, none, some, true, false}
use tt_lang.AutoProfile.{
  Text, CbInfo, compute, parse_signpost_name, implicit_prefix, read_text, write_text,
  build_cb_wait_to_dma_map, build_dma_producer_to_cb_map, find_at, parse_device_profile_csv,
  zone_start, zone_end,
}
use tt_lang.AutoProfile.Signposts.{parse_signpost_name-forms, mark}
use tt_lang.AutoProfile.Flow.{find_at-build_cb_wait_to_dma_map, last_said}

-- "dm", "52" and "cb_pop"
abbrev kernel : Text
kernel = b'd' ∷ b'm' ∷ []

abbrev line : Text
line = b'5' ∷ b'2' ∷ []

abbrev op : Text
op = b'c' ∷ b'b' ∷ b'_' ∷ b'p' ∷ b'o' ∷ b'p' ∷ []

parse_signpost_name-forms_example :
    (parse_signpost_name (kernel ++ (mark ++ line)) ≡ (none, false))
    × (parse_signpost_name (kernel ++ (mark ++ (line ++ (b'_' ∷ op)))) ≡ (some op, false))
    × (parse_signpost_name (kernel ++ (mark ++ (line ++ (b'_' ∷ (implicit_prefix ++ op)))))
        ≡ (some op, true))
parse_signpost_name-forms_example =
    parse_signpost_name-forms kernel b'5' (b'2' ∷ []) op op refl refl refl

-- A buffer that a DMA fills and one that compute fills, both waited for at line 9 of a kernel.
abbrev filled_by_dma : CbInfo
filled_by_dma = record {
  cb_index = some 0;
  wait_ops = record { kernel = kernel; line = some 4; direction = read_text } ∷ [];
  dma_ops = [];
  producers = [];
  consumers = record { kernel = op; line = some 9; direction = [] } ∷ [];
}

abbrev filled_by_compute : CbInfo
filled_by_compute = record filled_by_dma {
  cb_index = some 1;
  wait_ops = [];
  dma_ops = record { kernel = kernel; line = some 7; direction = write_text } ∷ [];
  producers = record { kernel = op; line = some 8; direction = [] } ∷ [];
}

last_buffer_said :
    last_said (op, 9) (filled_by_dma ∷ filled_by_compute ∷ [])
    ≡ some record { kernel = op; line = some 8; cb_index = some 1; label = compute }
last_buffer_said = refl

find_at-build_cb_wait_to_dma_map_example :
    find_at (op, 9) (build_cb_wait_to_dma_map (filled_by_dma ∷ filled_by_compute ∷ []))
    ≡ last_said (op, 9) (filled_by_dma ∷ filled_by_compute ∷ [])
find_at-build_cb_wait_to_dma_map_example =
    find_at-build_cb_wait_to_dma_map (op, 9) (filled_by_dma ∷ filled_by_compute ∷ [])

barrier_of_dma :
    build_dma_producer_to_cb_map 8 (filled_by_dma ∷ filled_by_compute ∷ []) ≡ ((kernel, 4), 0) ∷ []
unfolding build_dma_producer_to_cb_map
barrier_of_dma = refl

-- Rows of a signpost with 13 fields; the number of a timestamp is its first code point.
abbrev first_code : Text → Option ℕ
first_code [] = none
first_code (c ∷ cs) = some c

abbrev row : ℕ → Text → List Text
row ts kind =
    []
    ∷ []
    ∷ []
    ∷ kernel
    ∷ []
    ∷ (ts ∷ [])
    ∷ []
    ∷ []
    ∷ []
    ∷ []
    ∷ (kernel ++ (mark ++ line))
    ∷ kind
    ∷ []
    ∷ []

timed_signpost :
    parse_device_profile_csv first_code
      (λ t. t)
      ((kernel ++ (mark ++ line), (52, op)) ∷ [])
      (row 10 zone_start ∷ row 17 zone_end ∷ row 19 zone_end ∷ [])
    ≡ record {
      signpost = kernel ++ (mark ++ line);
      thread = kernel;
      cycles = pos 7;
      lineno = 52;
      source = op;
      op_name = none;
      implicit = false;
    }
      ∷ []
unfolding parse_device_profile_csv parse_signpost_name
timed_signpost = refl
