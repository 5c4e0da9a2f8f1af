-- ===== src/AutoProfile/Flow.antt =====
-- python/ttl/_src/auto_profile.py: what is found for a location in the map of the flow graph.
use tt_lang.Prelude.{
  ℕ, ◌≡◌, refl, ap, sym, ◌∙◌, List, [], ◌∷◌, Option, none, some, Bool, true, false, ◌||◌, ◌&&◌,
  ◌==◌, ltb, if◌then◌else◌, ==_refl, arith, Bool-cases, inl, inr,
}
use tt_lang.AutoProfile.{
  Text, same_list, Location, Label, dma, compute, head, write_source, write_text, same_location,
  assign, find_at, Op, CbInfo, Source, positive, assign_at, map_consumers, map_from, map_buffers,
  source_of, first_of, read_text, build_cb_wait_to_dma_map,
}

same_list-eq : (a b : List ℕ) → same_list a b ≡ true → a ≡ b
same_list-eq [] [] h = refl
same_list-eq [] (y ∷ b) h = absurd (cc)
same_list-eq (x ∷ a) [] h = absurd (cc)
same_list-eq (x ∷ a) (y ∷ b) h = ground (arith, same_list-eq a b)

same_list_refl : (a : List ℕ) → same_list a a ≡ true
same_list_refl [] = refl
same_list_refl (x ∷ a) = rw (==_refl x) (same_list_refl a)

same_location-eq : (k l : Location) → same_location k l ≡ true → k ≡ l
same_location-eq (a, m) (b, n) h = ground (arith, same_list-eq a b)

same_location_refl : (k : Location) → same_location k k ≡ true
same_location_refl (a, m) = rw (same_list_refl a) (==_refl m)

differ : (j k : Location) → same_location j k ≡ false → same_location k j ≡ false
differ j k h = elim (Bool-cases (same_location k j)) [
  | inl e ↦
      let e' : same_location j k ≡ true =
        ap (λ t. same_location j t) (same_location-eq k j e) ∙ same_location_refl j in
      absurd (cc)
  | inr e ↦ e
]

find_at-assign :
    {V : Type 0} (j k : Location) (v : V) (m : List (Location × V))
    → find_at j (assign k v m) ≡ (if same_location k j then some v else find_at j m)
find_at-assign j k v [] = refl
find_at-assign j k v ((i, w) ∷ m) = elim (Bool-cases (same_location i k)) [
  | inl e ↦ rw (e, same_location-eq i k e) (ground arith)
  | inr e ↦ elim (Bool-cases (same_location i j)) [
    | inl f ↦
        let e' : same_location j k ≡ false =
          ap (λ t. same_location t k) (sym (same_location-eq i j f)) ∙ e in
        rw (e, f, differ j k e') refl
    | inr f ↦ rw (e, f) (find_at-assign j k v m)
  ]
]

-- An operation at a location, at a line that is positive.
abbrev pub stands_at : Location → Op → Bool
stands_at k op = elim op.line [
  | none ↦ false
  | some line ↦ ltb 0 line && (same_list op.kernel k.0 && (line == k.1))
]

abbrev pub any_at : Location → List Op → Bool
any_at k [] = false
any_at k (op ∷ ops) = stands_at k op || any_at k ops

-- The operations with a direction, in their order.
abbrev pub of_direction : List ℕ → List Op → List Op
of_direction direction [] = []
of_direction direction (op ∷ ops) =
    if same_list op.direction direction
    then op ∷ of_direction direction ops
    else of_direction direction ops

-- An operation as the source of a buffer.
abbrev pub op_source : CbInfo → Op → Label → Source
op_source cb op label = record {
  kernel = op.kernel;
  line = op.line;
  cb_index = cb.cb_index;
  label = label;
}

-- The source of a buffer with these barriers of reads, writes of DMA and producers.
abbrev pub expected_source : CbInfo → List Op → List Op → List Op → Option Source
expected_source cb (barrier ∷ barriers) writes producers = some (op_source cb barrier dma)
expected_source cb [] (write ∷ writes) (producer ∷ producers) = some (op_source cb producer compute)
expected_source cb [] _ _ = none

-- What a buffer says of a location, where one of its consumers stands there: the first of its
-- operations "read", or its first producer where it has no "read" but a "write".
abbrev pub said_by : Location → CbInfo → Option Source
said_by k cb =
    if any_at k cb.consumers
    then expected_source cb (of_direction (b'r' ∷ b'e' ∷ b'a' ∷ b'd' ∷ []) cb.wait_ops)
        (of_direction (b'w' ∷ b'r' ∷ b'i' ∷ b't' ∷ b'e' ∷ []) cb.dma_ops) cb.producers
    else none

abbrev pub or_else : {V : Type 0} → Option V → Option V → Option V
or_else none o = o
or_else (some v) o = some v

-- The last buffer that says something of a location.
abbrev pub last_said : Location → List CbInfo → Option Source
last_said k [] = none
last_said k (cb ∷ cbs) = or_else (last_said k cbs) (said_by k cb)

stands_at-line :
    (k : Location) (kernel : Text) (o : Option ℕ)
    → elim (positive o) [ none ↦ false | some line ↦ same_location (kernel, line) k ]
      ≡ elim o [ none ↦ false | some line ↦ ltb 0 line && (same_list kernel k.0 && (line == k.1)) ]
stands_at-line k kernel none = refl
stands_at-line k kernel (some n) = elim (Bool-cases (ltb 0 n)) [
  | inl e ↦ rw e refl
  | inr e ↦ rw e refl
]

find_at-assign_at :
    (k : Location) (op : Op) (src : Source) (m : List (Location × Source))
    → find_at k (assign_at op.kernel (positive op.line) src m)
      ≡ (if stands_at k op then some src else find_at k m)
find_at-assign_at k op src m =
    by_line (positive op.line)
    ∙ ap (λ b. if b then some src else find_at k m) (stands_at-line k op.kernel op.line)
  where
    by_line :
        (o : Option ℕ)
        → find_at k (assign_at op.kernel o src m) ≡ (
            if elim o [ none ↦ false | some line ↦ same_location (op.kernel, line) k ]
            then some src
            else find_at k m)
    by_line none = refl
    by_line (some line) = find_at-assign k (op.kernel, line) src m

first_of-direction :
    (direction : Text) (ops : List Op) → first_of direction ops ≡ head (of_direction direction ops)
first_of-direction direction [] = refl
first_of-direction direction (op ∷ ops) = elim (Bool-cases (same_list op.direction direction)) [
  | inl e ↦ rw e refl
  | inr e ↦ rw e (first_of-direction direction ops)
]

write_source-expected :
    (cb : CbInfo) (ws ps : List Op)
    → write_source cb (head ws) (head ps) ≡ expected_source cb [] ws ps
write_source-expected cb [] ps = refl
write_source-expected cb (w ∷ ws) [] = refl
write_source-expected cb (w ∷ ws) (p ∷ ps) = refl

source_of-expected :
    (cb : CbInfo)
    → source_of cb (first_of read_text cb.wait_ops)
      ≡ expected_source cb
          (of_direction read_text cb.wait_ops)
          (of_direction write_text cb.dma_ops)
          cb.producers
source_of-expected cb =
    ap (source_of cb) (first_of-direction read_text cb.wait_ops)
    ∙ by_barriers (of_direction read_text cb.wait_ops)
  where
    by_barriers :
        (bs : List Op)
        → source_of cb (head bs)
          ≡ expected_source cb bs (of_direction write_text cb.dma_ops) cb.producers
    by_barriers (b ∷ bs) = refl
    by_barriers [] =
        ap (λ o. write_source cb o (head cb.producers)) (first_of-direction write_text cb.dma_ops)
        ∙ write_source-expected cb (of_direction write_text cb.dma_ops) cb.producers

if_same : {A : Type 0} (b : Bool) (a : A) → (if b then a else a) ≡ a
if_same true a = refl
if_same false a = refl

find_at-map_consumers :
    (k : Location) (src : Source) (ops : List Op) (m : List (Location × Source))
    → find_at k (map_consumers src ops m) ≡ (if any_at k ops then some src else find_at k m)
find_at-map_consumers k src [] m = refl
find_at-map_consumers k src (op ∷ ops) m =
    find_at-map_consumers k src ops (assign_at op.kernel (positive op.line) src m)
    ∙ elim (Bool-cases (stands_at k op)) [
      | inl e ↦
          ap (λ o. if any_at k ops then some src else o) (find_at-assign_at k op src m)
          ∙ rw e (if_same (any_at k ops) (some src))
      | inr e ↦
          ap (λ o. if any_at k ops then some src else o) (find_at-assign_at k op src m) ∙ rw e refl
    ]

or_else_assoc : {V : Type 0} (a b c : Option V) → or_else a (or_else b c) ≡ or_else (or_else a b) c
or_else_assoc none b c = refl
or_else_assoc (some a) b c = refl

find_at-map_from :
    (k : Location) (o : Option Source) (ops : List Op) (m : List (Location × Source))
    → find_at k (map_from o ops m) ≡ or_else (if any_at k ops then o else none) (find_at k m)
find_at-map_from k none ops m = elim (Bool-cases (any_at k ops)) [
  | inl e ↦ rw e refl
  | inr e ↦ rw e refl
]
find_at-map_from k (some src) ops m = elim (Bool-cases (any_at k ops)) [
  | inl e ↦ find_at-map_consumers k src ops m ∙ rw e refl
  | inr e ↦ find_at-map_consumers k src ops m ∙ rw e refl
]

find_at-map_buffers :
    (k : Location) (cbs : List CbInfo) (m : List (Location × Source))
    → find_at k (map_buffers cbs m) ≡ or_else (last_said k cbs) (find_at k m)
find_at-map_buffers k [] m = refl
find_at-map_buffers k (cb ∷ cbs) m =
    let src : Option Source = source_of cb (first_of read_text cb.wait_ops) in
    find_at-map_buffers k cbs (map_from src cb.consumers m)
    ∙ ap (or_else (last_said k cbs)) (
        find_at-map_from k src cb.consumers m
        ∙ ap (λ o. or_else (if any_at k cb.consumers then o else none) (find_at k m))
            (source_of-expected cb))
    ∙ or_else_assoc (last_said k cbs) (said_by k cb) (find_at k m)

or_else-none : {V : Type 0} (o : Option V) → or_else o none ≡ o
or_else-none none = refl
or_else-none (some v) = refl

-- What the map holds for a kernel and a line is what the last buffer says of them that says anything: a
-- buffer with a consumer in that kernel, at that line and with a line above 0, says the first of its
-- barriers with direction "read", labelled as DMA, or, where it has none but a transfer with direction
-- "write", the first of its producers, labelled as compute.
pub find_at-build_cb_wait_to_dma_map :
    (k : Location) (cbs : List CbInfo) → find_at k (build_cb_wait_to_dma_map cbs) ≡ last_said k cbs
unfolding build_cb_wait_to_dma_map
find_at-build_cb_wait_to_dma_map k cbs =
    find_at-map_buffers k cbs [] ∙ or_else-none (last_said k cbs)
