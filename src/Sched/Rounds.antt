-- ===== src/Sched/Rounds.antt =====
-- The loop of `sched_start` is fair: who is ready runs, in order.
use guide_os.Prelude.{
  ℕ, zero, suc, ◌<◌, ◌≡◌, ◌≢◌, null, refl, subst, ap, ◌∙◌, some, List, [], ◌∷◌, ◌++◌, append_assoc,
  length, get_elem?, arith, Cmd, Returns, returns, bind-Returns, Ptr,
}
use guide_os.Heap.Chain.{Nodes, items}
use guide_os.Sched.{Kernel}
use guide_os.Sched.Start.{start_loop}
use guide_os.Sched.Steady.{Steady, IsTurn, pick-first, pick-idle, put_back, put_back-idle}

get_elem?-front :
    (xs ys : Nodes) (j : ℕ) (p : Ptr)
    → get_elem? (items xs) j ≡ some p
    → get_elem? (items (xs ++ ys)) j ≡ some p
get_elem?-front [] ys j p at = cc
get_elem?-front ((t, d) ∷ xs) ys zero p at = at
get_elem?-front ((t, d) ∷ xs) ys (suc j) p at = get_elem?-front xs ys j p at

-- The order of the first round, put in front of that of the others
in_order :
    (p p' : Ptr) (rs more : Nodes) (ps : List Ptr) (m : ℕ)
    → p' ≡ p
    → ((j : ℕ) (q : Ptr)
        → j < m
        → get_elem? (items (rs ++ more)) j ≡ some q
        → get_elem? ps j ≡ some q)
    → (j : ℕ) (q : Ptr) → j < suc m
    → get_elem? (p ∷ items rs) j ≡ some q
    → get_elem? (p' ∷ ps) j ≡ some q
in_order p p' rs more ps m same rest zero q lt at = ap some same ∙ at
in_order p p' rs more ps m same rest (suc j) q lt at =
    rest j q (omega arith) (get_elem?-front rs more j q at)

module _ (i : ℕ) (idle : Ptr) where
  -- If each turn is as `IsTurn` asks, and the idle process is not NULL, the loop of `sched_start` goes on:
  -- it makes a round for each turn, and no round panics or faults. The process at place `j` of the ready
  -- queue is the one of round `j`.
  pub start_loop_lem :
      (turns : List (Cmd Kernel (Unit {0}))) (ws rs : Nodes) (n : ℕ) (k : Kernel)
      → ((j : ℕ) (turn : Cmd Kernel (Unit {0}))
          → get_elem? turns j ≡ some turn
          → IsTurn i idle turn)
      → idle ≢ null
      → Steady i idle ws rs n k
      → Returns
          (λ ps k'.
            (length ps ≡ length turns)
            × ((j : ℕ) (p : Ptr)
                → j < length turns
                → get_elem? (items rs) j ≡ some p
                → get_elem? ps j ≡ some p)
            × (ws' : Nodes) × (rs' : Nodes) × Steady i idle ws' rs' n k')
          (start_loop i turns k)
  unfolding start_loop
  start_loop_lem [] ws rs n k fair some_idle st =
      returns (refl, λ j p lt at. absurd (omega arith), ws, rs, st)
  start_loop_lem (turn ∷ turns) ws [] n k fair some_idle st =
      bind-Returns (pick-idle i idle ws n k st) λ p k₁ (same, st₁, here₁, runs₁).
        bind-Returns (fair 0 turn refl idle ws [] n k₁ st₁ some_idle here₁ runs₁)
          λ r k₂ (ws₂, zs, st₂, here₂).
            bind-Returns (put_back-idle i idle ws₂ zs n k₂ st₂ here₂) λ r' k₃ st₃.
              bind-Returns (start_loop_lem turns ws₂ zs n k₃ (λ j. fair (suc j)) some_idle st₃)
                λ ps k' (len, order, ws', rs', rest).
                  returns (ap suc len, λ j q lt at. cc, ws', rs', rest)
  start_loop_lem (turn ∷ turns) ws ((t, p) ∷ rs) n k fair some_idle st =
      bind-Returns (pick-first i idle ws t p rs n k st) λ p' k₁ (same, st₁, here₁, runs₁).
        bind-Returns (fair 0 turn refl p ws rs (suc n) k₁ st₁ (st.eligible 0 p refl).0 here₁ runs₁)
          λ r k₂ (ws₂, zs, st₂, here₂).
            bind-Returns
              (put_back i idle p ws₂ (rs ++ zs) n k₂ st₂ here₂ (st.eligible 0 p refl).0
                (st.eligible 0 p refl).1)
              λ r' k₃ (ws₃, vs, st₃).
                bind-Returns
                  (start_loop_lem turns ws₃ (rs ++ (zs ++ vs)) n k₃ (λ j. fair (suc j)) some_idle
                    (subst (λ l. Steady i idle ws₃ l n k₃) (append_assoc rs zs vs) st₃))
                  λ ps k' (len, order, ws', rs', rest). returns (
                    ap suc len,
                    in_order p p' rs (zs ++ vs) ps (length turns) same order,
                    ws',
                    rs',
                    rest,
                  )
