-- ===== src/Sys/Tests.antt =====
-- The table on concrete calls, and the theorems at inputs that meet their hypotheses.
use bailey_forbes_flinstone.Base.{◌≡◌, refl, arith, true, none, some, [], ◌∷◌, update}
use bailey_forbes_flinstone.Sys.Vrt.{Vrt, file, pipe, path_field, zero_entry, alloc, find_free}
use bailey_forbes_flinstone.Sys.Vrt.Handles.{Allocated, alloc-Allocated}
use bailey_forbes_flinstone.Base.{ℕ, false}
use bailey_forbes_flinstone.Sys.Vrt.{get}
use bailey_forbes_flinstone.Ipc.{hosted, done}
use bailey_forbes_flinstone.Ipc.Pipe
use bailey_forbes_flinstone.Ipc.Pipe.{Pipe}
use bailey_forbes_flinstone.Ipc.Msgq.{Msgq}
use bailey_forbes_flinstone.Sys.Syscall.{
  close, Kernel, Outside, dispatch, on_close, destroy_entry, release,
}

-- A table with one file.
abbrev table : Vrt
table = record {
  table =
      update (λ i. zero_entry) 0
        (record { kind = file; resource = 0x1000; path = 47 ∷ []; size = 0 });
  inited = true;
}

alloc-table : (alloc table pipe 0x2000 none 64).0 ≡ some 1
unfolding alloc find_free
alloc-table = refl

alloc-Allocated_example :
    Allocated table
      (record { kind = pipe; resource = 0x2000; path = path_field none; size = 64 })
      (alloc table pipe 0x2000 none 64)
alloc-Allocated_example = alloc-Allocated table pipe 0x2000 none 64 refl (omega arith)

-- A caller that closes the handle 0, which is a pipe.
abbrev no_pipe : Pipe
no_pipe = record {
  buf = λ i. 0;
  size = 4;
  head = 0;
  tail = 0;
  len = 0;
  closing = false;
  waiters = 0;
}

abbrev no_msgq : Msgq
no_msgq = record {
  buf = λ i. 0;
  max_messages = 1;
  message_size = 1;
  head = 0;
  tail = 0;
  len = 0;
  closing = false;
  waiters = 0;
}

abbrev kernel : Kernel
kernel = record {
  vrt = record table {
    table =
        update (λ i. zero_entry) 0 (record { kind = pipe; resource = 0x1000; path = []; size = 4 });
  };
  pipes = λ a. no_pipe;
  msgqs = λ a. no_msgq;
}

abbrev outside : Outside
outside = record { put = λ bs. none; fetch = λ n. none; address = 0x3000; fresh = none }

abbrev memory : ℕ → ℕ
memory i = 0

close-kernel : (dispatch hosted outside kernel memory close 0 0 0 0).0 ≡ done 0
unfolding dispatch on_close destroy_entry release get Pipe.begin_destroy Pipe.finish_destroy
close-kernel = refl
