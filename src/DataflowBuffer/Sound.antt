-- ===== src/DataflowBuffer/Sound.antt =====
-- What holds of a buffer whose users keep to the protocol: the state of the ring, the pending blocks
-- and the tiles fit together.
use tt_lang.Prelude.{
  ℕ, ◌≡◌, ◌⊎◌, refl, inl, Bool, if◌then◌else◌, List, Option, none, some, true, false, map,
}
use tt_lang.BlockState.{by_reserve, by_wait}
use tt_lang.Block.{Block}
use tt_lang.Block.Legal.{IsLegal}
use tt_lang.DfbState.{DfbState, checked}
use tt_lang.DfbState.Inv.{IsValid}
use tt_lang.DfbState.Fifo.{contents, staged}
use tt_lang.DfbState.Views.{ViewsStaged, ViewsFront}
use tt_lang.DataflowBuffer.{DataflowBuffer}

-- A thread that is cleared or kept.
pub cleared :
    {k : ℕ} (b : Bool) (o : Option ℕ)
    → (o ≡ none) ⊎ (o ≡ some k)
    → ((if b then none else o) ≡ none) ⊎ ((if b then none else o) ≡ some k)
cleared true o h = inl refl
cleared false o h = h

module _ {A : Type 0} where
  -- Every slot of the list holds a tile.
  abbrev pub IsFilled : List (Option A) → Type 0
  IsFilled xs = (vs : List A) × (xs ≡ map some vs)

  pub record IsReading (n : ℕ) (s : DfbState A) (b : Block) : Type 0 where
    pub front : ViewsFront b s
    pub size : b.span.len ≡ n
    pub target : s.last_wait_target ≡ n
    pub legal : IsLegal b
    pub waited_for : b.acquisition ≡ by_wait

  pub record IsWriting (n : ℕ) (s : DfbState A) (b : Block) : Type 0 where
    pub back : ViewsStaged b s
    pub held : s.reserved ≡ n
    pub legal : IsLegal b
    pub reserved_for : b.acquisition ≡ by_reserve
    pub filled : IsFilled (staged s)

  -- The pending blocks and what the ring says of them.
  abbrev pub Reading : ℕ → DfbState A → Option Block → Type 0
  Reading n s none = s.last_wait_target ≡ 0
  Reading n s (some b) = IsReading n s b

  abbrev pub Writing : ℕ → DfbState A → Option Block → Type 0
  Writing n s none = s.reserved ≡ 0
  Writing n s (some b) = IsWriting n s b

  -- `thread` is the one operating system thread that runs all the threads of the simulator.
  pub record IsSound (thread : ℕ) (d : DataflowBuffer A) (s : DfbState A) : Type 0 where
    pub in_pool : d.state ≡ some s
    pub valid : IsValid s
    pub checks : checked d.tiles_per_operation s ≡ none
    pub stepped : (s.step ≡ none) ⊎ (s.step ≡ some d.tiles_per_operation)
    pub one_consumer : (s.consumer_waiting ≡ none) ⊎ (s.consumer_waiting ≡ some thread)
    pub one_producer : (s.producer_reserving ≡ none) ⊎ (s.producer_reserving ≡ some thread)
    pub filled : IsFilled (contents s)
    pub reading : Reading d.tiles_per_operation s d.pending_waited_block
    pub writing : Writing d.tiles_per_operation s d.pending_reserved_block
