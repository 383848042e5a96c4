-- ===== src/Ipc/Tests.antt =====
-- Pipes and message queues on concrete calls, and the theorems at inputs that meet their hypotheses.
use bailey_forbes_flinstone.Base.{ℕ, ◌≡◌, refl, arith, true, false, some, List, [], ◌∷◌}
use bailey_forbes_flinstone.Ipc.{hosted, failed, waits, done}
use bailey_forbes_flinstone.Vm.Mem
use bailey_forbes_flinstone.Ipc.Pipe
use bailey_forbes_flinstone.Ipc.Pipe.{Pipe}
use bailey_forbes_flinstone.Ipc.Pipe.Fifo.{IsPipe}
use bailey_forbes_flinstone.Ipc.Pipe.Spec as PipeSpec
use bailey_forbes_flinstone.Ipc.Pipe.Spec.{
  write_bytes, read_bytes, wake_reader, destroy, wake_destroyer, wrote, got, draining, freed,
  undefined,
}
use bailey_forbes_flinstone.Ipc.Pipe.Trace.{run-spec_run, Creates, create-Creates}
use bailey_forbes_flinstone.Ipc.Msgq.{Msgq}
use bailey_forbes_flinstone.Ipc.Msgq
use bailey_forbes_flinstone.Ipc.Msgq.Spec as MsgqSpec
use bailey_forbes_flinstone.Ipc.Msgq.Spec.{
  IsMsgq, send_message, receive_message, wake_receiver, sent, received,
}
use bailey_forbes_flinstone.Ipc.Msgq.Trace.{run-messages}

abbrev block : ℕ → ℕ
block i = 0xAA

abbrev small_pipe : Pipe
small_pipe = record {
  buf = block;
  size = 3;
  head = 0;
  tail = 0;
  len = 0;
  closing = false;
  waiters = 0;
}

small_pipe-IsPipe : IsPipe small_pipe
small_pipe-IsPipe = record {
  head_inside = omega arith;
  tail_inside = omega arith;
  fits = omega arith;
  tail_at = refl;
}

abbrev pipe_script : List PipeSpec.Op
pipe_script =
    write_bytes (1 ∷ 2 ∷ [])
    ∷ read_bytes 1
    ∷ write_bytes (3 ∷ 4 ∷ 5 ∷ [])
    ∷ read_bytes 9
    ∷ read_bytes 1
    ∷ destroy
    ∷ wake_reader 1
    ∷ wake_destroyer
    ∷ read_bytes 1
    ∷ []

run-pipe_script :
    PipeSpec.run hosted (some small_pipe) pipe_script
    ≡ wrote (done 2)
      ∷ got (done (1 ∷ []))
      ∷ wrote (done 2)
      ∷ got (done (2 ∷ 3 ∷ 4 ∷ []))
      ∷ got waits
      ∷ draining
      ∷ got failed
      ∷ freed
      ∷ undefined
      ∷ []
unfolding Pipe.write Pipe.read Pipe.write_loop Pipe.read_loop Pipe.put Pipe.skip Pipe.begin_destroy
    Pipe.on_empty Pipe.read_locked Pipe.resume_read Pipe.finish_destroy
run-pipe_script = refl

run-spec_run_example :
    PipeSpec.run hosted (some small_pipe) pipe_script
    ≡ PipeSpec.spec_run hosted (some (PipeSpec.abstract_of small_pipe)) pipe_script
run-spec_run_example = run-spec_run hosted small_pipe pipe_script small_pipe-IsPipe

create-Creates_example : Creates hosted pipe_script (some block) 3 (Pipe.create (some block) 3)
create-Creates_example = create-Creates hosted pipe_script (some block) 3

abbrev small_queue : Msgq
small_queue = record {
  buf = block;
  max_messages = 2;
  message_size = 4;
  head = 0;
  tail = 0;
  len = 0;
  closing = false;
  waiters = 0;
}

small_queue-IsMsgq : IsMsgq small_queue
small_queue-IsMsgq = record {
  head_inside = omega arith;
  tail_inside = omega arith;
  fits = omega arith;
  tail_at = refl;
  block_fits = unfold Msgq.block_size in omega arith;
}

abbrev msgq_script : List MsgqSpec.Op
msgq_script =
    send_message (1 ∷ 2 ∷ [])
    ∷ send_message (3 ∷ [])
    ∷ send_message (4 ∷ [])
    ∷ receive_message 3 0
    ∷ send_message (5 ∷ 6 ∷ 7 ∷ 8 ∷ 9 ∷ [])
    ∷ receive_message 9 0
    ∷ receive_message 9 5
    ∷ send_message (6 ∷ [])
    ∷ wake_receiver 1 false
    ∷ []

run-msgq_script :
    MsgqSpec.run hosted (some small_queue) msgq_script
    ≡ sent true
      ∷ sent true
      ∷ sent false
      ∷ received (done (1 ∷ 2 ∷ 0 ∷ []))
      ∷ sent false
      ∷ received (done (3 ∷ 0 ∷ 0 ∷ 0 ∷ []))
      ∷ received waits
      ∷ sent true
      ∷ received (done (6 ∷ []))
      ∷ []
unfolding Msgq.send Msgq.receive Msgq.receive_locked Msgq.resume_receive Msgq.on_empty Msgq.store
    Msgq.skip Mem.read_bytes Mem.write_bytes
run-msgq_script = refl

run-messages_example :
    MsgqSpec.run hosted (some small_queue) msgq_script
    ≡ MsgqSpec.spec_run hosted (some (MsgqSpec.abstract_of small_queue)) msgq_script
run-messages_example = run-messages hosted small_queue msgq_script small_queue-IsMsgq
