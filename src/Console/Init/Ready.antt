-- ===== src/Console/Init/Ready.antt =====
-- What `console_init` sets up.
use guide_os.Prelude.{
  ℕ, zero, suc, ◌+◌, ◌*◌, ◌%◌, ◌^◌, ◌<◌, ◌≡◌, refl, sym, ap, inl, inr, true, false, Bool-cases, [],
  length, ◌==◌, ==_of_ne, if◌then◌else◌, test_bit, arith, Ends, bind-Ends, bind-Returns, Returns,
  returns, map_state-Returns, map_state-Ends, Returns-Ends, Ptr, null,
}
use guide_os.Strings.{Mem}
use guide_os.Cpu.{Machine, update}
use guide_os.Spinlock.{init_lock, set_lock}
use guide_os.Spinlock.Section.{free_lock}
use guide_os.Spinlock.Laws.{Restored}
use guide_os.Spinlock.Settled.{Settled, Restored-Settled, Settled-trans}
use guide_os.Fifo.{Fifo, spsc_fifo_init}
use guide_os.Fifo.Refine.{IsValid, contents}
use guide_os.Uart.{Trace}
use guide_os.Uart.Putc.{keeps_scratch, uart_init_lem}
use guide_os.Controllers.{ioapic_unmask, ioapicwrite}
use guide_os.Controllers.Routes.{value, low, high, entry-low, entry-high}
use guide_os.Kmalloc.{Kmem, kmalloc_lock}
use guide_os.Kmalloc.Bytes.{Sound, Granted}
use guide_os.Kmalloc.Allocate.{Answer, TookPage, OutOfMemory}
use guide_os.Kmalloc.Locking.{Calm}
use guide_os.Kmalloc.Calls.{kmalloc_lem}
use guide_os.Console.Input.{console_lock, console_read_lock}
use guide_os.Console.Init.{Devices, com1_irq, com1_vector, bytes_at, with_buffer, console_init}

-- The console is set up: the locks that were free are so, its own among them, and its ring is empty, on the 32
-- bytes of a block that were free. If the serial port is there, its interrupt, and no other, is routed anew, to this CPU.
pub record SetUp (device : Trace → ℕ → ℕ) (lapic_id i n : ℕ) (s s' : Devices) : Type 0 where
  pub settled : Settled i s.mem.machine s'.mem.machine
  pub lock : s'.mem.machine.lock console_lock ≡ free_lock
  pub read_lock : s'.mem.machine.lock console_read_lock ≡ free_lock
  pub valid : IsValid s'.fifo
  pub size : s'.fifo.buffer_size ≡ 32
  pub empty : contents s'.fifo ≡ []
  pub sound : Sound n s'.mem
  pub buffer : Ptr
  pub granted : Granted 32 s.mem buffer s'.mem
  pub ring : s'.fifo.buffer ≡ bytes_at s'.mem.bytes buffer 32
  pub took : TookPage n s.mem.pages s'.mem.pages
  pub enabled : s'.uart_enable ≡ keeps_scratch device s.uart
  pub routed :
      s'.uart_enable ≡ true
      → (j d : ℕ)
      → (value s'.ioapic (low j) d
          ≡ (if j == com1_irq then com1_vector else value s.ioapic (low j) d))
        × (value s'.ioapic (high j) d
            ≡ (if j == com1_irq then lapic_id * 2 ^ 24 else value s.ioapic (high j) d))
  pub unrouted : s'.uart_enable ≡ false → s'.ioapic ≡ s.ioapic

length-bytes_at : (m : Mem) (p : Ptr) (n : ℕ) → length (bytes_at m p n) ≡ n
unfolding bytes_at
length-bytes_at m p zero = refl
length-bytes_at m p (suc n) = ap suc (length-bytes_at m (p + 1) n)

-- The locks of the console do not count for the memory.
Granted-machine :
    (n : ℕ) (s s' : Kmem) (p : Ptr) (m : Machine)
    → Granted n (record s { machine = m }) p s'
    → Granted n s p s'
Granted-machine n s s' p m g = record {
  behind_header = g.behind_header;
  header = g.header;
  bytes = g.bytes;
  headers = g.headers;
  contents = g.contents;
}

ring_on : Fifo → Ptr → Kmem → Fifo
ring_on f p k = record f { buffer = bytes_at k.bytes p 32; buffer_size = 32; read = 0; write = 0 }

ring_on-IsValid : (f : Fifo) (p : Ptr) (k : Kmem) → IsValid (ring_on f p k)
unfolding ring_on
ring_on-IsValid f p k = record {
  fits = omega (arith, length-bytes_at k.bytes p 32);
  small = omega arith;
  read_in = omega arith;
  write_in = omega arith;
}

-- With a buffer, all of it is set up.
with_buffer-SetUp :
    (device : Trace → ℕ → ℕ) (lapic_id fuel i n : ℕ) (s : Devices) (k : Kmem) (p : Ptr)
    → ((t : Trace) → test_bit (device t 5 % 256) 5 ≡ true)
    → lapic_id < 256
    → Settled i s.mem.machine k.machine
    → k.machine.lock console_lock ≡ free_lock
    → k.machine.lock console_read_lock ≡ free_lock
    → Sound n k
    → Granted 32 s.mem p k
    → TookPage n s.mem.pages k.pages
    → Returns
        (λ u s'. SetUp device lapic_id i n s s')
        (with_buffer device lapic_id (suc fuel) p (record s { mem = k }))
unfolding with_buffer spsc_fifo_init ioapic_unmask ioapicwrite ring_on
with_buffer-SetUp device lapic_id fuel i n s k p ready small settled free free' snd granted took =
    rw (==_of_ne p null (omega (arith, granted.behind_header))) (
      bind-Returns (map_state-Returns _ (uart_init_lem device ready fuel s.uart))
        λ found s₁ (t, (is, sent), e). elim (Bool-cases (keeps_scratch device s.uart)) [
          | inl there ↦
              rw (e, is, there)
                (returns (record {
                  settled = settled;
                  lock = free;
                  read_lock = free';
                  valid = ring_on-IsValid s.fifo p k;
                  size = refl;
                  empty = refl;
                  sound = snd;
                  buffer = p;
                  granted = granted;
                  ring = refl;
                  took = took;
                  enabled = sym there;
                  routed = λ on j d. (
                    (let low_ =
                          entry-low com1_irq com1_vector (lapic_id * 2 ^ 24 % 2 ^ 32) j d
                            s.ioapic in
                        ground arith),
                    (let cpu : lapic_id * 2 ^ 24 % 2 ^ 32 ≡ lapic_id * 2 ^ 24 = omega arith in
                        let high_ =
                          entry-high com1_irq com1_vector (lapic_id * 2 ^ 24 % 2 ^ 32) j d
                            s.ioapic in
                        ground arith),
                  );
                  unrouted = λ off. cc;
                }))
          | inr absent ↦
              rw (e, is, absent)
                (returns (record {
                  settled = settled;
                  lock = free;
                  read_lock = free';
                  valid = ring_on-IsValid s.fifo p k;
                  size = refl;
                  empty = refl;
                  sound = snd;
                  buffer = p;
                  granted = granted;
                  ring = refl;
                  took = took;
                  enabled = sym absent;
                  routed = λ on. cc;
                  unrouted = λ off. refl;
                }))
        ])

-- `console_init` returns with the console set up, or panics because no free block fits its buffer and
-- no page is free. The serial port is one that is ready to send whenever it is asked.
pub console_init_lem :
    (device : Trace → ℕ → ℕ) (lapic_id spins fuel i n : ℕ) (s : Devices)
    → ((t : Trace) → test_bit (device t 5 % 256) 5 ≡ true)
    → lapic_id < 256
    → Calm i s.mem.machine
    → Sound n s.mem
    → Ends
        (λ u s'. SetUp device lapic_id i n s s')
        (OutOfMemory 32 s.mem)
        (console_init device lapic_id (suc spins) (suc fuel) s)
unfolding console_init init_lock set_lock OutOfMemory Answer
console_init_lem device lapic_id spins fuel i n s ready small calm sound =
    bind-Ends
      (map_state-Ends _ (
        kmalloc_lem spins i n 32 locked_mem calm'
          (record { valid = sound.valid; once = sound.once })))
      λ p s₁ (k, (back, snd, ans), e). rw e (by_answer p k back snd ans)
  where
    locked_mem : Kmem
    locked_mem = record (s.mem) {
      machine = record (s.mem.machine) {
        lock =
            update (update s.mem.machine.lock console_lock free_lock) console_read_lock free_lock;
      };
    }

    calm' : Calm i locked_mem.machine
    calm' = record {
      here = calm.here;
      bounded = calm.bounded;
      off = calm.off;
      kmalloc_free = calm.kmalloc_free;
      pgalloc_free = calm.pgalloc_free;
    }

    first_settled : Settled i s.mem.machine locked_mem.machine
    first_settled = record {
      flag = refl;
      layer = refl;
      here = calm.here;
      locks = λ l free. ground arith;
      exact = λ l free. ground arith;
    }

    by_answer :
        (p : Ptr) (k : Kmem)
        → Restored kmalloc_lock i locked_mem.machine k.machine
        → Sound n k
        → Answer n 32 locked_mem p k
        → Ends
            (λ u s'. SetUp device lapic_id i n s s')
            (OutOfMemory 32 s.mem)
            (with_buffer device lapic_id (suc fuel) p (record s { mem = k }))
    by_answer p k back snd (inl (null_, same, inl z, out, out')) = absurd (omega arith)
    by_answer p k back snd (inl (null_, same, inr z, out, out')) = absurd (omega arith)
    by_answer p k back snd (inr (pos, le, took, granted)) = Returns-Ends (
        with_buffer-SetUp device lapic_id fuel i n s k p ready small
          (Settled-trans i _ _ _ first_settled (Restored-Settled kmalloc_lock i _ _ back))
          (back.others console_lock (omega arith)) (back.others console_read_lock (omega arith)) snd
          (Granted-machine 32 s.mem k p _ granted) took)
