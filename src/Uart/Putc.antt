-- ===== src/Uart/Putc.antt =====
-- What the driver of uart.c writes to a device that is ready.
use guide_os.Prelude.{
  ℕ, suc, ◌%◌, ◌≡◌, ◌∙◌, refl, inl, inr, Bool-cases, Bool, true, ap, append-nil, Returns, returns,
  List, [], ◌∷◌, ◌++◌, append_assoc, ◌==◌, if◌then◌else◌, ok, test_bit,
}
use guide_os.Console.{backspace}
use guide_os.Uart.{
  Trace, wr, put_all, greeting, uart_init, uart_write, uart_read, s_uart_putc, uart_putc,
}

-- The bytes that the transmitter gets for a character
abbrev pub bytes_of : ℕ → List ℕ
bytes_of c = if c == backspace then 8 ∷ 32 ∷ 8 ∷ [] else c % 256 ∷ []

abbrev pub data_writes : List ℕ → Trace
data_writes [] = []
data_writes (b ∷ bs) = wr 0 b ∷ data_writes bs

data_writes-append : (as_ bs : List ℕ) → data_writes (as_ ++ bs) ≡ data_writes as_ ++ data_writes bs
data_writes-append [] bs = refl
data_writes-append (a ∷ as_) bs = ap (λ t. wr 0 a ∷ t) (data_writes-append as_ bs)

-- The writes of `uart_init` up to its test, and the test
abbrev pub probed : Trace → Trace
probed t =
    ((((((t ++ (wr 3 0x80 ∷ [])) ++ (wr 0 1 ∷ [])) ++ (wr 1 0 ∷ [])) ++ (wr 3 3 ∷ []))
        ++ (wr 1 0 ∷ []))
      ++ (wr 2 7 ∷ []))
    ++ (wr 7 0x69 ∷ [])

abbrev pub keeps_scratch : (Trace → ℕ → ℕ) → Trace → Bool
keeps_scratch device t = device (probed t) 7 % 256 == 0x69

module _ (device : Trace → ℕ → ℕ) (ready : (t : Trace) → test_bit (device t 5 % 256) 5 ≡ true) where
  s_uart_putc-ok :
      (fuel c : ℕ) (t : Trace)
      → s_uart_putc device (suc fuel) c t ≡ ok tt (t ++ (wr 0 (c % 256) ∷ []))
  unfolding s_uart_putc uart_read uart_write
  s_uart_putc-ok fuel c t = rw (ready t) refl

  -- `uart_putc` sends the bytes of the character, where a backspace is three bytes.
  pub uart_putc_lem :
      (fuel c : ℕ) (t : Trace)
      → uart_putc device (suc fuel) c t ≡ ok tt (t ++ data_writes (bytes_of c))
  unfolding uart_putc
  uart_putc_lem fuel c t = elim (Bool-cases (c == backspace)) [
    | inl e ↦
        let t₁ : Trace = t ++ (wr 0 8 ∷ []) in
        let t₂ : Trace = t₁ ++ (wr 0 32 ∷ []) in
        let joined : t₂ ++ (wr 0 8 ∷ []) ≡ t ++ (wr 0 8 ∷ wr 0 32 ∷ wr 0 8 ∷ []) =
          append_assoc t₁ (wr 0 32 ∷ []) (wr 0 8 ∷ [])
          ∙ append_assoc t (wr 0 8 ∷ []) (wr 0 32 ∷ wr 0 8 ∷ []) in
        rw (e, s_uart_putc-ok fuel 8 t, s_uart_putc-ok fuel 32 t₁, s_uart_putc-ok fuel 8 t₂, joined)
          refl
    | inr e ↦ rw (e, s_uart_putc-ok fuel c t) refl
  ]

  -- The bytes of a text
  abbrev pub all_bytes : List ℕ → List ℕ
  all_bytes [] = []
  all_bytes (c ∷ cs) = bytes_of c ++ all_bytes cs

  put_all-ok :
      (fuel : ℕ) (cs : List ℕ) (t : Trace)
      → put_all device (suc fuel) cs t ≡ ok tt (t ++ data_writes (all_bytes cs))
  unfolding put_all
  put_all-ok fuel [] t = rw (append-nil t) refl
  put_all-ok fuel (c ∷ cs) t =
      rw
        (
          uart_putc_lem fuel c t,
          put_all-ok fuel cs (t ++ data_writes (bytes_of c)),
          append_assoc t (data_writes (bytes_of c)) (data_writes (all_bytes cs)),
          data_writes-append (bytes_of c) (all_bytes cs),
        )
        refl

  -- `uart_init` says whether the scratch register keeps its value, and if it does, greets.
  pub uart_init_lem :
      (fuel : ℕ) (t : Trace)
      → Returns
          (λ found t'.
            (found ≡ keeps_scratch device t)
            × (found ≡ true
                → t' ≡ (probed t ++ (wr 1 1 ∷ [])) ++ data_writes (all_bytes (greeting device))))
          (uart_init device (suc fuel) t)
  unfolding uart_init uart_write uart_read
  uart_init_lem fuel t = elim (Bool-cases (keeps_scratch device t)) [
    | inl e ↦
        rw (e, put_all-ok fuel (greeting device) (probed t ++ (wr 1 1 ∷ [])))
          (returns (refl, λ y. refl))
    | inr e ↦ rw e (returns (refl, λ y. cc))
  ]
