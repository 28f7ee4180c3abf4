-- ===== src/Controllers/Routes.antt =====
-- What the I/O APIC routes after the writes of ioapic.c.
use guide_os.Prelude.{
  ℕ, zero, suc, ◌+◌, ◌*◌, ◌/◌, ◌%◌, ◌^◌, ◌≤◌, ◌<◌, ◌≡◌, ◌∙◌, refl, ap, [], ◌∷◌, ◌++◌, ◌==◌, ◌&&◌,
  if◌then◌else◌, leb, ltb, arith, Returns, returns, bind-Returns, weaken-Returns, ◌>>◌,
}
use guide_os.Uart.{Trace, wr}
use guide_os.Controllers.{int_disabled, irq_0, ioapicwrite, ioapic_loop, ioapic_init, ioapic_unmask}

-- The value of register `r` after the writes, which was `d` before them
unfoldable pub value : Trace → ℕ → ℕ → ℕ
value [] r d = d
value (w ∷ ws) r d = value ws r (if w.offset == r then w.value else d)

value-append : (t u : Trace) (r d : ℕ) → value (t ++ u) r d ≡ value u r (value t r d)
unfolding value
value-append [] u r d = refl
value-append (w ∷ t) u r d = value-append t u r (if w.offset == r then w.value else d)

-- The two registers of the entry of an interrupt
abbrev pub low : ℕ → ℕ
low j = 0x10 + 2 * j

abbrev pub high : ℕ → ℕ
high j = 0x10 + 2 * j + 1

-- One entry is written.
abbrev pub entry : ℕ → ℕ → ℕ → Trace → Trace
entry i a b t = (t ++ (wr (low i) a ∷ [])) ++ (wr (high i) b ∷ [])

pub entry-low :
    (i a b j d : ℕ) (t : Trace)
    → value (entry i a b t) (low j) d ≡ (if i == j then a else value t (low j) d)
unfolding value
entry-low i a b j d t =
    value-append (t ++ (wr (low i) a ∷ [])) (wr (high i) b ∷ []) (low j) d
    ∙ ap (value (wr (high i) b ∷ []) (low j)) (value-append t (wr (low i) a ∷ []) (low j) d)
    ∙ ground arith

pub entry-high :
    (i a b j d : ℕ) (t : Trace)
    → value (entry i a b t) (high j) d ≡ (if i == j then b else value t (high j) d)
unfolding value
entry-high i a b j d t =
    value-append (t ++ (wr (low i) a ∷ [])) (wr (high i) b ∷ []) (high j) d
    ∙ ap (value (wr (high i) b ∷ []) (high j)) (value-append t (wr (low i) a ∷ []) (high j) d)
    ∙ ground arith

-- The entries of the interrupts from `i` to `i + left` are masked, and no other changes.
pub record Masked (left i : ℕ) (t t' : Trace) : Type 0 where
  pub lows :
      (j d : ℕ)
      → value t' (low j) d
        ≡ (if leb i j && ltb j (i + left) then int_disabled + (irq_0 + j) else value t (low j) d)
  pub highs :
      (j d : ℕ)
      → value t' (high j) d ≡ (if leb i j && ltb j (i + left) then 0 else value t (high j) d)

pub ioapic_loop-Masked :
    (left i : ℕ) (t : Trace) → Returns (λ r t'. Masked left i t t') (ioapic_loop left i t)
unfolding ioapic_loop ioapicwrite
ioapic_loop-Masked zero i t =
    returns (record { lows = λ j d. ground arith; highs = λ j d. ground arith })
ioapic_loop-Masked (suc left) i t =
    let t₁ : Trace = entry i (int_disabled + (irq_0 + i)) 0 t in
    weaken-Returns (ioapic_loop-Masked left (i + 1) t₁) λ r t' m. record {
      lows = λ j d.
          let a = m.lows j d in
          let b = entry-low i (int_disabled + (irq_0 + i)) 0 j d t in ground arith;
      highs = λ j d.
          let a = m.highs j d in
          let b = entry-high i (int_disabled + (irq_0 + i)) 0 j d t in ground arith;
    }

-- After `ioapic_init` and one `ioapic_unmask`, the interrupt `irq` leads to its vector on the given
-- CPU, and every other interrupt of the device, as its version register counts them, is masked.
pub ioapic_unmask-init :
    (version irq vector apicid : ℕ) (t : Trace)
    → apicid < 256
    → Returns
        (λ r t'.
          (j d : ℕ)
          → j ≤ version / 2 ^ 16 % 256
          → (value t' (low j) d ≡ (if j == irq then vector else int_disabled + (irq_0 + j)))
            × (value t' (high j) d ≡ (if j == irq then apicid * 2 ^ 24 else 0)))
        ((ioapic_init version >> ioapic_unmask irq vector apicid) t)
unfolding ioapic_init ioapic_unmask ioapicwrite
ioapic_unmask-init version irq vector apicid t small =
    let cpu : apicid * 2 ^ 24 % 2 ^ 32 ≡ apicid * 2 ^ 24 = omega arith in
    bind-Returns (ioapic_loop-Masked (version / 2 ^ 16 % 256 + 1) 0 t) λ r t₁ m. returns λ j d le. (
      (let a = m.lows j d in
          let b = entry-low irq vector (apicid * 2 ^ 24 % 2 ^ 32) j d t₁ in ground arith),
      (let a = m.highs j d in
          let b = entry-high irq vector (apicid * 2 ^ 24 % 2 ^ 32) j d t₁ in ground arith),
    )
