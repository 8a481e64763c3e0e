-- ===== src/Scheduler.antt =====
-- process/process_scheduler.c: the processes as a circular list through `next` pointers in a memory
-- with a process at every address, signals, and the switch of a timer tick. What it calls of
-- memory/vmm.c and memory/allocator.c is the interface `Machine`.
mod State
pub mod Ring
pub mod Find
pub mod Bypass
pub mod Remove
pub mod Add
pub mod Signals
pub mod Send
pub mod Turns
pub mod Picking
pub mod Switch
mod Examples
pub use State.*
use eitan_os.Base.{
  ℕ, zero, suc, ◌+◌, ◌%◌, ◌^◌, Bool, true, false, not, ◌==◌, bit_and, bit_or, if◌then◌else◌,
}
use eitan_os.Allocator.{null, Run, done, panic, out_of_fuel}
use eitan_os.Gdt.{gdt_create_selector}

-- The `do ... while (*process_ptr != first_process)` of both searches, where `hit` breaks.
unfoldable pub circle : ℕ → (ℕ → Bool) → (ℕ → Process) → ℕ → ℕ → Run ℕ
circle zero hit procs first p = out_of_fuel
circle (suc fuel) hit procs first p =
    let next = (procs p).next in
    let rest = circle fuel hit procs first next in
    if hit p then done p else if next == first then done first else rest

-- The test of the process that the loop left in `*process_ptr`
abbrev pub tested : (ℕ → Bool) → Run ℕ → Run (Bool × ℕ)
tested hit r = continue {B = Bool × ℕ} r (λ p. done (hit p, p))

abbrev pub has_pid : (ℕ → Process) → ℕ → ℕ → Bool
has_pid procs pid p = (procs p).pid == pid

abbrev pub next_has_pid : (ℕ → Process) → ℕ → ℕ → Bool
next_has_pid procs pid p = (procs (procs p).next).pid == pid

abbrev pub current_pid : {M : Type 0} → Scheduler M → ℕ
current_pid s = (s.processes s.current_process).pid

-- `process_code_start`'s registers
abbrev pub start_cpu : ℕ → Bool → Cpu
start_cpu code is_kernel_level =
    let code_segment =
      if is_kernel_level then gdt_create_selector 1 0 0 else gdt_create_selector 3 0 3 in
    let data_segment =
      if is_kernel_level then gdt_create_selector 2 0 0 else gdt_create_selector 4 0 3 in
    record clear_cpu {
      gs = data_segment;
      fs = data_segment;
      rip = code;
      cs = code_segment;
      rflags = 0x202;
      rsp = 0x00007fffffffffff;
      ss = data_segment;
    }

-- `sizeof(process_t)`
abbrev pub process_size : ℕ
process_size = 216

abbrev pub sig_abrt : ℕ
sig_abrt = 2 ^ 5

abbrev pub sig_kill : ℕ
sig_kill = 2 ^ 8

module _ {M : Type 0} (os : Machine M) where
  pub find_process : ℕ → ℕ → Scheduler M → Run (Bool × ℕ)
  find_process fuel pid s =
      tested (has_pid s.processes pid)
        (circle fuel (has_pid s.processes pid) s.processes s.current_process s.current_process)

  pub find_previous_process : ℕ → ℕ → Scheduler M → Run (Bool × ℕ)
  find_previous_process fuel pid s =
      tested (next_has_pid s.processes pid)
        (circle fuel (next_has_pid s.processes pid) s.processes s.current_process s.current_process)

  -- The address space of a process is loaded, its heap unmapped, and then its tables from the kernel's.
  abbrev pub discard : ℕ → ℕ → M → Run M
  discard table kernel m =
      let loaded = os.load_cpu (os.set_pml4 table m) in
      continue (os.unmap_heap loaded)
        (λ unmapped. os.unmap_pml4 table (os.load_cpu (os.set_pml4 kernel unmapped)))

  -- The part of `process_scheduler_remove_process` behind the search.
  pub unlink : ℕ → Scheduler M → Run (Bool × Scheduler M)
  unlink prev s =
      let process = (s.processes prev).next in
      let next_next = (s.processes process).next in
      let table = (s.processes process).pml4 in
      let kernel = (s.processes s.kernel_process).pml4 in
      continue (continue (discard table kernel s.machine) (os.free process)) (λ m. done (
        true,
        record s {
          processes = store s.processes prev (record (s.processes prev) { next = next_next });
          current_process = next_next;
          machine = m;
        },
      ))

  pub remove_process : ℕ → ℕ → Scheduler M → Run (Bool × Scheduler M)
  remove_process fuel pid s =
      if pid == 0
      then done (false, s)
      else continue (find_previous_process fuel pid s)
          (λ found. if found.0 then unlink found.1 s else done (false, s))

  pub add_process : ℕ → ℕ → Bool → Scheduler M → Run (ℕ × Scheduler M)
  add_process code pml4 is_kernel_level s =
      continue (os.malloc process_size s.machine) (λ allocated.
        let (new, m) = allocated in
        let pid = (s.highest_pid + 1) % 2 ^ 32 in
        let filled = store s.processes new (record {
          pid = pid;
          regs = start_cpu code is_kernel_level;
          pending_signals = 0;
          pml4 = pml4;
          next = (s.processes s.current_process).next;
        }) in
        let current = s.current_process in
        done (
          pid,
          record s {
            highest_pid = pid;
            processes = store filled current (record (filled current) { next = new });
            machine = m;
          },
        ))

  pub send_signals : ℕ → ℕ → ℕ → Scheduler M → Run (Scheduler M)
  send_signals fuel pid signals s = continue (find_process fuel pid s) (λ found.
      let p = found.1 in
      let process = s.processes p in
      let pending = bit_or process.pending_signals signals in
      if found.0
      then done (record s {
        processes = store s.processes p (record process { pending_signals = pending });
      })
      else done s)

  -- `if (sigs & sig) { if (process_scheduler_remove_process(process->pid)) return true; }`
  abbrev pub kill_by : ℕ → ℕ → ℕ → ℕ → Scheduler M → Run (Bool × Scheduler M)
  kill_by sig fuel sigs p s =
      if bit_and sigs sig == 0 then done (false, s) else remove_process fuel (s.processes p).pid s

  pub handle_signals : ℕ → ℕ → Scheduler M → Run (Bool × Scheduler M)
  handle_signals fuel p s =
      let process = s.processes p in
      let sigs = process.pending_signals in
      let s0 = record s {
        processes = store s.processes p (record process { pending_signals = 0 });
      } in
      continue (kill_by sig_abrt fuel sigs p s0)
        (λ aborted. if aborted.0 then done aborted else kill_by sig_kill fuel sigs p aborted.1)

  -- `do current_process = current_process->next; while (handle_signals(current_process));`
  pub pick : ℕ → ℕ → Scheduler M → Run (Scheduler M)
  pick zero fuel s = out_of_fuel
  pick (suc rounds) fuel s =
      let next = (s.processes s.current_process).next in
      continue (handle_signals fuel next (record s { current_process = next })) (λ handled.
        let again = pick rounds fuel handled.1 in if handled.0 then again else done handled.1)

  -- The registers that the timer's handler goes back to are the result.
  pub next_process : ℕ → ℕ → Cpu → Scheduler M → Run (Cpu × Scheduler M)
  next_process rounds fuel regs s =
      let current = s.current_process in
      let kernel = (s.processes s.kernel_process).pml4 in
      let saved = record s {
        processes = store s.processes current (record (s.processes current) { regs = regs });
        machine = os.load_cpu (os.set_pml4 kernel s.machine);
      } in
      continue (pick rounds fuel saved) (λ s1.
        let process = s1.processes s1.current_process in
        let kernel1 = (s1.processes s1.kernel_process).pml4 in
        let copied = os.copy_kernel_pml4 process.pml4 kernel1 s1.machine in
        done (process.regs, record s1 { machine = os.load_cpu (os.set_pml4 process.pml4 copied) }))

  pub exit : ℕ → Scheduler M → Run (Cpu × Scheduler M)
  exit fuel s =
      continue (remove_process fuel (current_pid s) s)
        (λ removed. let s1 = removed.1 in done ((s1.processes s1.current_process).regs, s1))

  -- `HEAP_SIZE` is the first argument; `processes` is what memory holds before.
  pub process_scheduler_init : ℕ → ℕ → (ℕ → Process) → M → Run (Scheduler M)
  process_scheduler_init heap_size kernel_pml4 processes m =
      continue (os.heap_init heap_size true m) (λ heap.
        if not heap.0
        then panic
        else continue (os.malloc process_size heap.1) (λ allocated.
          let (p, m1) = allocated in
          if p == null
          then panic
          else let kernel : Process = record {
            pid = 0;
            regs = clear_cpu;
            pending_signals = 0;
            pml4 = kernel_pml4;
            next = p;
          } in
            done (record {
              highest_pid = 0;
              current_process = p;
              kernel_process = p;
              processes = store processes p kernel;
              machine = m1;
            })))
