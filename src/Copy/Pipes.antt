-- ===== src/Copy/Pipes.antt =====
-- python/sim/copyhandlers.py: the handlers between blocks and pipes.
--
-- A pipe stands with its entry in the registry of pipes, if it has one. The number of the current core,
-- which is missing outside of a kernel, and the grid are arguments. The calls of the statistics are
-- left out: they do not touch the ends.
use tt_lang.Prelude.{
  ℕ, List, [], ◌∷◌, length, Option, none, some, Bool, true, if◌then◌else◌, value_error, Outcome, ok,
  raise, bind_ok,
}
use tt_lang.Block.{Block}
use tt_lang.Block.Slots.{Slots, to_list, copy_as_dest}
use tt_lang.Pipe.{Pipe, Dst, any_slice, expand_core_range}
use tt_lang.PipeQueue.{
  Message, PipeEntry, new_entry, send, receive, can_receive, received_by, mark_received,
}
use tt_lang.Copy.Handlers.{Endpoint, block, pipe, Handler}

-- A Pipe, or the identity of one end that wraps it.
pub data Wrapper : Type 0 where
  bare : Wrapper
  src_identity : Wrapper
  dst_identity : Wrapper

pub record PipeEnd (T : Type 0) : Type 0 where
  pub pipe : Pipe
  pub wrapper : Wrapper
  pub entry : Option (PipeEntry T)

-- The receivers that a message waits for, by the destination of the pipe.
unfoldable pub num_receivers : List ℕ → Dst → Outcome ℕ
unfolding expand_core_range
num_receivers grid (Dst.linear n) = ok 1
num_receivers grid (Dst.items xs) =
    if any_slice xs then bind_ok (expand_core_range grid xs) (λ cores. ok (length cores)) else ok 1

module _ {T : Type 0} where
  -- `_get_or_create_pipe_entry`
  abbrev pub get_or_create_pipe_entry : Option (PipeEntry T) → PipeEntry T
  get_or_create_pipe_entry none = new_entry
  get_or_create_pipe_entry (some entry) = entry

  abbrev pub with_entry : PipeEnd T → PipeEntry T → PipeEnd T
  with_entry p entry = record p { entry = some entry }

  -- The first message that the core has not received is marked: what remains of a receive whose copy
  -- raises.
  abbrev pub mark_first : Option ℕ → List (Message T) → List (Message T)
  mark_first core_id [] = []
  mark_first core_id (m ∷ ms) =
      if received_by core_id m then m ∷ mark_first core_id ms else mark_received core_id m ∷ ms

  module _ (grid : List ℕ) (core_id : Option ℕ) where
    -- The message is sent once its receivers are counted; the entry is there by then.
    abbrev pub send_items : PipeEnd T → Outcome ℕ → List T → Outcome (Unit {0}) × PipeEnd T
    send_items p (raise e) items = (raise e, with_entry p (get_or_create_pipe_entry p.entry))
    send_items p (ok n) items =
        let (o, entry) = send n items (get_or_create_pipe_entry p.entry) in (o, with_entry p entry)

    abbrev pub read_and_send : PipeEnd T → Outcome (List T) → Outcome (Unit {0}) × PipeEnd T
    read_and_send p (raise e) = (raise e, p)
    read_and_send p (ok items) = send_items p (num_receivers grid p.pipe.dst_core_range) items

    -- `BlockToPipeHandler.transfer`
    unfoldable pub block_to_pipe : Block → Slots T → PipeEnd T → Outcome (Unit {0}) × PipeEnd T
    unfolding to_list num_receivers send
    block_to_pipe b buf p = read_and_send p (to_list b buf).0

    -- The tensors of the message are copied; the count of receivers is lowered only behind that.
    abbrev pub received :
        PipeEnd T
        → PipeEntry T
        → PipeEntry T
        → Outcome (Unit {0}) × Slots T
        → Outcome (Unit {0}) × PipeEnd T × Slots T
    received p entry entry' (ok _, buf') = (ok tt, with_entry p entry', buf')
    received p entry entry' (raise e, buf') =
        (raise e, with_entry p (record entry { queue = mark_first core_id entry.queue }), buf')

    abbrev pub copied :
        PipeEnd T
        → Block
        → Slots T
        → PipeEntry T
        → Outcome (List T) × PipeEntry T
        → Outcome (Unit {0}) × PipeEnd T × Slots T
    copied p b buf entry (raise e, entry') = (raise e, with_entry p entry', buf)
    copied p b buf entry (ok items, entry') = received p entry entry' (copy_as_dest b items buf)

    -- `PipeToBlockHandler.transfer`
    unfoldable pub pipe_to_block :
        PipeEnd T → Block → Slots T → Outcome (Unit {0}) × PipeEnd T × Slots T
    unfolding receive copy_as_dest
    pipe_to_block p b buf =
        copied p b buf (get_or_create_pipe_entry p.entry)
          (receive core_id b.span.len (get_or_create_pipe_entry p.entry))

    unfoldable pub transfer_pipe :
        Endpoint T (PipeEnd T)
        → Endpoint T (PipeEnd T)
        → Outcome (Unit {0}) × (Endpoint T (PipeEnd T) × Endpoint T (PipeEnd T))
    unfolding block_to_pipe pipe_to_block
    transfer_pipe (block b buf) (pipe p) =
        let (o, p') = block_to_pipe b buf p in (o, (block b buf, pipe p'))
    transfer_pipe (pipe p) (block b buf) =
        let (o, p', buf') = pipe_to_block p b buf in (o, (pipe p', block b buf'))
    transfer_pipe src dst = (raise value_error, (src, dst))

    -- A send never waits; a receive waits until the pipe has a message.
    abbrev pub can_wait_pipe : Endpoint T (PipeEnd T) → Endpoint T (PipeEnd T) → Bool
    can_wait_pipe (pipe p) dst = can_receive p.entry
    can_wait_pipe src dst = true

    abbrev pub pipe_handler : Handler T (PipeEnd T)
    pipe_handler = record {
      validate = λ src dst. none;
      transfer = λ ends. transfer_pipe ends.0 ends.1;
      can_wait = can_wait_pipe;
    }

    -- What the registry holds for the types of two ends, one of which is a pipe: blocks go into a pipe
    -- or its source identity and come out of a pipe or its destination identity. The handlers of the
    -- identities do what those of the pipe do.
    abbrev pub pipe_handlers :
        Endpoint T (PipeEnd T) → Endpoint T (PipeEnd T) → Option (Handler T (PipeEnd T))
    pipe_handlers (block b buf) (pipe p) = elim p.wrapper [
      | dst_identity ↦ none
      | _ ↦ some pipe_handler
    ]
    pipe_handlers (pipe p) (block b buf) = elim p.wrapper [
      | src_identity ↦ none
      | _ ↦ some pipe_handler
    ]
    pipe_handlers src dst = none
