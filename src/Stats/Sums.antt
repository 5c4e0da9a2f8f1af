-- ===== src/Stats/Sums.antt =====
-- python/sim/stats.py: the sums of a table against those of a log.
use Prim.Native.String.{String}
use tt_lang.Prelude.{
  ℕ, ◌+◌, ◌≡◌, refl, ap, ◌∙◌, List, ◌∷◌, Bool, true, false, if◌then◌else◌, ◌==◌, arith,
}
use tt_lang.Stats.{
  Table, Counters, DfbCounters, change, no_counters, no_dfb_counters, add_read, add_write,
  add_reserve, add_wait,
}
use tt_lang.Stats.Counts.{is_empty, sum_of, is_empty-change, sum_of-change}
use tt_lang.Stats.History.{Record, calls_of, tiles_of, tiles}

-- The four numbers of an entry, by what they count: the calls of two kinds and their tiles.
pub record View (V : Type 0) : Type 0 where
  pub default : V
  pub ins : V → ℕ
  pub outs : V → ℕ
  pub tiles_in : V → ℕ
  pub tiles_out : V → ℕ

abbrev pub counters_view : View Counters
counters_view = record {
  default = no_counters;
  ins = λ c. c.reads;
  outs = λ c. c.writes;
  tiles_in = λ c. c.tiles_read;
  tiles_out = λ c. c.tiles_written;
}

abbrev pub dfb_view : View DfbCounters
dfb_view = record {
  default = no_dfb_counters;
  ins = λ c. c.reserves;
  outs = λ c. c.waits;
  tiles_in = λ c. c.tiles_reserved;
  tiles_out = λ c. c.tiles_waited;
}

-- The sums of a table's columns are those of a log, whose records of two kinds it counts.
pub record Sums {V : Type 0} (view : View V) (p q : Record → Bool) (t : Table V) (log : List Record)
    : Type 0 where
  pub empty : is_empty t ≡ (calls_of p log + calls_of q log == 0)
  pub ins : sum_of view.ins t ≡ calls_of p log
  pub outs : sum_of view.outs t ≡ calls_of q log
  pub tiles_in : sum_of view.tiles_in t ≡ tiles_of p log
  pub tiles_out : sum_of view.tiles_out t ≡ tiles_of q log

-- An update of an entry that counts a record.
pub record Counts {V : Type 0} (view : View V) (p q : Record → Bool) (x : Record) (g : V → V)
    : Type 0 where
  pub either : (if p x then 1 else 0) + (if q x then 1 else 0) ≡ 1
  pub ins : (v : V) → view.ins (g v) ≡ view.ins v + (if p x then 1 else 0)
  pub outs : (v : V) → view.outs (g v) ≡ view.outs v + (if q x then 1 else 0)
  pub tiles_in : (v : V) → view.tiles_in (g v) ≡ view.tiles_in v + (if p x then tiles x else 0)
  pub tiles_out : (v : V) → view.tiles_out (g v) ≡ view.tiles_out v + (if q x then tiles x else 0)

-- The entry of a name that is not there counts nothing.
abbrev pub IsZero : {V : Type 0} → View V → Type 0
IsZero view =
    (view.ins view.default ≡ 0)
    × (view.outs view.default ≡ 0)
    × (view.tiles_in view.default ≡ 0)
    × (view.tiles_out view.default ≡ 0)

module _ {V : Type 0} (view : View V) (p q : Record → Bool) (x : Record) (log : List Record) where
  pub Sums-change :
      (k : String) (g : V → V) (t : Table V)
      → IsZero view
      → Counts view p q x g
      → Sums view p q t log
      → Sums view p q (change view.default k g t) (x ∷ log)
  Sums-change k g t z c h = record {
    empty = rw (is_empty-change view.default k g t) (ground (arith, c.either));
    ins = rw (sum_of-change view.default k g view.ins _ c.ins z.0 t) (omega (arith, h.ins));
    outs = rw (sum_of-change view.default k g view.outs _ c.outs z.1 t) (omega (arith, h.outs));
    tiles_in =
        rw (sum_of-change view.default k g view.tiles_in _ c.tiles_in z.2 t)
          (omega (arith, h.tiles_in));
    tiles_out =
        rw (sum_of-change view.default k g view.tiles_out _ c.tiles_out z.3 t)
          (omega (arith, h.tiles_out));
  }

  pub Sums-other :
      (t : Table V) → p x ≡ false → q x ≡ false → Sums view p q t log → Sums view p q t (x ∷ log)
  Sums-other t e f h = record {
    empty = rw (e, f) (h.empty ∙ ap (λ (n : ℕ). n == 0) (omega arith));
    ins = rw e (omega (arith, h.ins));
    outs = rw f (omega (arith, h.outs));
    tiles_in = rw e (omega (arith, h.tiles_in));
    tiles_out = rw f (omega (arith, h.tiles_out));
  }

module _ (p q : Record → Bool) (x : Record) where
  pub Counts-add_read : p x ≡ true → q x ≡ false → Counts counters_view p q x (add_read (tiles x))
  Counts-add_read e f = record {
    either = rw (e, f) refl;
    ins = λ v. rw e refl;
    outs = λ v. rw f (omega arith);
    tiles_in = λ v. rw e refl;
    tiles_out = λ v. rw f (omega arith);
  }

  pub Counts-add_write : p x ≡ false → q x ≡ true → Counts counters_view p q x (add_write (tiles x))
  Counts-add_write e f = record {
    either = rw (e, f) refl;
    ins = λ v. rw e (omega arith);
    outs = λ v. rw f refl;
    tiles_in = λ v. rw e (omega arith);
    tiles_out = λ v. rw f refl;
  }

  pub Counts-add_reserve : p x ≡ true → q x ≡ false → Counts dfb_view p q x (add_reserve (tiles x))
  Counts-add_reserve e f = record {
    either = rw (e, f) refl;
    ins = λ v. rw e refl;
    outs = λ v. rw f (omega arith);
    tiles_in = λ v. rw e refl;
    tiles_out = λ v. rw f (omega arith);
  }

  pub Counts-add_wait : p x ≡ false → q x ≡ true → Counts dfb_view p q x (add_wait (tiles x))
  Counts-add_wait e f = record {
    either = rw (e, f) refl;
    ins = λ v. rw e (omega arith);
    outs = λ v. rw f refl;
    tiles_in = λ v. rw e (omega arith);
    tiles_out = λ v. rw f refl;
  }
