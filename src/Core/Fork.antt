-- ===== src/Core/Fork.antt =====
-- src/kernel/core/fork.c: sys_fork. What kmalloc and clone_process_memory return is an argument, and
-- so are the addresses in play; an address 0 is NULL.
pub mod Laws
use unix_os.Prelude.{
  ℕ, Bool, Result, List, Errno, none, Option, if◌then◌else◌, not, ◌∷◌, err, add32, ◌==◌, ltb, some,
  option_map, eagain, [], ◌-◌, get_or, ◌||◌, ◌+◌, suc, ok, sub32, set, eperm, enomem, einval, ◌&&◌,
  leb,
}
use unix_os.Core.Process.{Process, Table, ready, put_slot}

-- proc_fd_t
pub record Fd : Type 0 where
  pub of_idx : ℕ
  pub offset : ℕ
  pub flags : ℕ
  pub refcount : ℕ

-- A process with the fields that only fork touches here; `esp` is context.esp.
pub record Task : Type 0 where
  pub process : Process
  pub kernel_stack : ℕ
  pub memory : ℕ
  pub fd_table : List Fd
  pub esp : ℕ

-- What the calls of sys_fork return: whether kmalloc gives the process and which address for its
-- kernel stack, and the copy of the parent's memory.
pub record Given : Type 0 where
  pub process_ok : Bool
  pub stack : ℕ
  pub memory : ℕ

-- What fork reads and writes besides the parent: the process table, next_pid, and the reference
-- count of each open file.
pub record World : Type 0 where
  pub table : Table
  pub next_pid : ℕ
  pub refs : List ℕ

pub record Forked : Type 0 where
  pub ret : Result ℕ
  pub world : World
  pub parent : Task
  pub child : Option Task

abbrev pub kernel_stack_size : ℕ
kernel_stack_size = 8192

-- of_idx_decode, none for -1
abbrev pub of_idx_decode : ℕ → Option ℕ
of_idx_decode encoded =
    if encoded == 0 then none else (if ltb 64 encoded then none else some (encoded - 1))

-- vfs_open_file_incref
unfoldable pub open_file_incref : List ℕ → ℕ → List ℕ
open_file_incref refs raw =
    if ltb 0 (get_or refs raw 0) then set refs raw (add32 (get_or refs raw 0) 1) else refs

abbrev pub is_used : Fd → Bool
is_used fd = not (fd.of_idx == 0) || not (fd.flags == 0)

-- The loop over the descriptors: the parent's, the child's, and the counts of the open files.
unfoldable pub copy_fds : List Fd → List ℕ → List Fd × List Fd × List ℕ
unfolding open_file_incref
copy_fds [] refs = ([], [], refs)
copy_fds (fd ∷ fds) refs =
    let refs' : List ℕ =
      if is_used fd
      then elim (of_idx_decode fd.of_idx) [ none ↦ refs | some raw ↦ open_file_incref refs raw ]
      else refs in
    let (ps, cs, last) = copy_fds fds refs' in
    if is_used fd
    then (record fd { refcount = fd.refcount + 1 } ∷ ps, record fd { refcount = 1 } ∷ cs, last)
    else (fd ∷ ps, fd ∷ cs, last)

-- The fields of the child that are set before its memory and files; all others are 0, from kmemset.
abbrev pub new_child : Process → ℕ → Process
new_child parent pid = record {
  pid = pid;
  ppid = parent.pid;
  pgid = 0;
  sid = 0;
  cred = record {
    uid = parent.cred.uid;
    gid = parent.cred.gid;
    euid = 0;
    egid = 0;
    suid = 0;
    sgid = 0;
  };
  state = ready;
  priority = parent.priority;
  time_slice = parent.time_slice;
  exit_code = 0;
  tty = some 0;
  umask = parent.umask;
  signal_mask = parent.signal_mask;
  signal_pending = 0;
  signal_handlers = parent.signal_handlers;
  cwd = parent.cwd;
  owner_cpu = 0;
}

-- The first free slot from 1 on.
unfoldable pub first_free : Table → Option ℕ
first_free [] = none
first_free (none ∷ t) = some 0
first_free (some p ∷ t) = option_map suc (first_free t)

abbrev pub free_slot : Table → Option ℕ
free_slot [] = none
free_slot (p ∷ t) = option_map suc (first_free t)

-- From the descriptors on, when nothing can fail but the search for a slot.
unfoldable pub enter_child : World → Task → Task → Forked
unfolding copy_fds first_free
enter_child w parent child =
    let (ps, cs, refs) = copy_fds parent.fd_table w.refs in
    let parent' = record parent { fd_table = ps } in
    let child' = record child { fd_table = cs } in
    elim (free_slot w.table) [
      | none ↦ record {
        ret = err eagain;
        world = record w { refs = refs };
        parent = parent';
        child = none;
      }
      | some slot ↦ record {
        ret = ok child.process.pid;
        world = record w { table = put_slot w.table slot child.process; refs = refs };
        parent = parent';
        child = some child';
      }
    ]

abbrev pub refused : World → Task → Errno → Forked
refused w parent e = record { ret = err e; world = w; parent = parent; child = none }

-- sys_fork(regs), in the parent.
unfoldable pub fork : Given → World → Task → ℕ → Forked
unfolding enter_child
fork g w parent regs =
    let w' = record w { next_pid = add32 w.next_pid 1 } in
    let child : Task = record {
      process = new_child parent.process w.next_pid;
      kernel_stack = g.stack;
      memory = g.memory;
      fd_table = [];
      esp = if regs == 0 then parent.esp else add32 g.stack (sub32 regs parent.kernel_stack);
    } in
    if parent.process.pid == 0
    then refused w parent eperm
    else (if not g.process_ok
        then refused w parent enomem
        else (if parent.kernel_stack == 0
            then refused w' parent einval
            else (if g.stack == 0
                then refused w' parent enomem
                else (if not (regs == 0)
                      && (ltb regs parent.kernel_stack
                          || leb (add32 parent.kernel_stack kernel_stack_size) regs)
                    then refused w' parent einval
                    else (if not (parent.memory == 0) && g.memory == 0
                        then refused w' parent enomem
                        else enter_child w' parent
                            (if parent.memory == 0 then record child { memory = 0 } else child))))))
