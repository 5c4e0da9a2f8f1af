-- ===== src/Copy.antt =====
-- python/sim/copy.py: copy transactions. Copy/Handlers.antt, python/sim/copyhandlers.py, has the ends of
-- a copy and the handlers between tensors and blocks. The handlers of pipes are a parameter of a
-- copy: Copy/Pipes.antt has them, and PipeQueue the queue that they work on.
--
-- A block stands with the slots of its ring. What other threads do while a copy waits is the
-- parameter `others`, a function on the transaction.
mod Handlers
unfoldable pub use Handlers.*
pub mod Tiles
pub mod InFlight
pub mod Pipes
pub mod RoundTrip
mod Tests
mod PipeTests
use tt_lang.Prelude.{
  ◌*◌, Option, none, some, Bool, true, false, if◌then◌else◌, Error, value_error, Outcome, ok, raise,
  bind_ok, Exec, ◌>>◌,
}
use tt_lang.Block.{Block, mark_copy_as_source, mark_copy_as_dest, mark_tx_wait_complete}
use tt_lang.Tensor.{Torch}

-- What the registry holds for the types of two ends; `pipes` are the handlers with a pipe.
abbrev pub lookup_handler :
    {T P : Type 0}
    → Torch T
    → (Endpoint T P → Endpoint T P → Option (Handler T P))
    → Endpoint T P
    → Endpoint T P
    → Outcome (Handler T P)
unfolding tensor_handler
lookup_handler torch pipes (tensor t) (block b buf) = ok (tensor_handler torch)
lookup_handler torch pipes (block b buf) (tensor t) = ok (tensor_handler torch)
lookup_handler torch pipes src dst = elim (pipes src dst) [
  | none ↦ raise value_error
  | some h ↦ ok h
]

pub record Transaction (T P : Type 0) : Type 0 where
  pub src : Endpoint T P
  pub dst : Endpoint T P
  pub completed : Bool

module _ {T P : Type 0} where
  -- A mark on an end, where it is a block.
  abbrev pub on_block : (Block → Outcome Block) → Endpoint T P → Outcome (Endpoint T P)
  on_block mark (block b buf) = bind_ok (mark b) λ b'. ok (block b' buf)
  on_block mark (tensor t) = ok (tensor t)
  on_block mark (pipe p) = ok (pipe p)

  abbrev set_src : Outcome (Endpoint T P) → Exec (Transaction T P) (Unit {0})
  set_src (ok e) x = (ok tt, record x { src = e })
  set_src (raise e) x = (raise e, x)

  abbrev set_dst : Outcome (Endpoint T P) → Exec (Transaction T P) (Unit {0})
  set_dst (ok e) x = (ok tt, record x { dst = e })
  set_dst (raise e) x = (raise e, x)

  abbrev pub mark_src : (Block → Outcome Block) → Exec (Transaction T P) (Unit {0})
  mark_src mark x = set_src (on_block mark x.src) x

  abbrev pub mark_dst : (Block → Outcome Block) → Exec (Transaction T P) (Unit {0})
  mark_dst mark x = set_dst (on_block mark x.dst) x

  abbrev pub checked : Option Error → Exec (Transaction T P) (Unit {0})
  checked none x = (ok tt, x)
  checked (some e) x = (raise e, x)

  abbrev moved :
      Outcome (Unit {0}) × (Endpoint T P × Endpoint T P) → Exec (Transaction T P) (Unit {0})
  moved (r, (src, dst)) x = (r, record x { src = src; dst = dst })

  -- `handler.transfer`
  abbrev pub transferred : Handler T P → Exec (Transaction T P) (Unit {0})
  transferred h x = moved (h.transfer (x.src, x.dst)) x

  abbrev pub completing : Exec (Transaction T P) (Unit {0})
  completing x = (ok tt, record x { completed = true })

  -- The rest of `__init__`, with the handler that was found.
  abbrev pub opened : Outcome (Handler T P) → Exec (Transaction T P) (Unit {0})
  unfolding mark_copy_as_source mark_copy_as_dest
  opened (raise e) x = (raise e, x)
  opened (ok h) x =
      (mark_src mark_copy_as_source
          >> (mark_dst mark_copy_as_dest >> λ y. checked (h.validate y.src y.dst) y))
        x

  -- `wait`, behind the look at `completed` and `block_if_needed`.
  abbrev pub finished : Outcome (Handler T P) → Exec (Transaction T P) (Unit {0})
  unfolding mark_tx_wait_complete
  finished (raise e) x = (raise e, x)
  finished (ok h) x =
      (transferred h
          >> (completing >> (mark_src mark_tx_wait_complete >> mark_dst mark_tx_wait_complete)))
        x

module _ {T P : Type 0} (torch : Torch T)
    (pipes : Endpoint T P → Endpoint T P → Option (Handler T P)) where
  -- `copy`, and `CopyTransaction.__init__`
  unfoldable pub copy : Endpoint T P → Endpoint T P → Outcome (Unit {0}) × Transaction T P
  unfolding opened lookup_handler
  copy src dst =
      opened (lookup_handler torch pipes src dst)
        (record { src = src; dst = dst; completed = false })

  -- `CopyTransaction.wait`
  unfoldable pub wait : (Transaction T P → Transaction T P) → Exec (Transaction T P) (Unit {0})
  unfolding finished lookup_handler
  wait others x =
      if x.completed
      then (ok tt, x)
      else finished (lookup_handler torch pipes x.src x.dst) (others x)

  can_wait_on : Outcome (Handler T P) → Transaction T P → Bool
  can_wait_on (ok h) x = h.can_wait x.src x.dst
  can_wait_on (raise e) x = false

  -- `CopyTransaction.can_wait`
  unfoldable pub can_wait : Transaction T P → Bool
  unfolding can_wait_on lookup_handler
  can_wait x = can_wait_on (lookup_handler torch pipes x.src x.dst) x
