-- ===== src/Upstream/Balance/Least.antt =====
-- The choice of a host by least connections.
use aastro.Prelude.{
  ℕ, suc, ◌+◌, ◌≡◌, ◌≤◌, ◌<◌, refl, inl, inr, List, [], ◌∷◌, length, ltb, ◌==◌, ltb→lt, String, All,
  subst, get_or, arith, Bool-cases,
}
use aastro.Upstream.{least_conns, HttpUpstream}
use aastro.Upstream.Balance.{max_int64, scan, select_host}

-- What `scan` has found: no count below the least one so far, or the host `i + k` with the least.
data Found (cs : List ℕ) (i m s r : ℕ) : Type 0 where
  none_below : r ≡ s → All (λ c. m ≤ c) cs → Found cs i m s r
  at_offset :
      (k : ℕ)
      → r ≡ i + k
      → k < length cs
      → get_or cs k 0 < m
      → All (λ c. get_or cs k 0 ≤ c) cs
      → Found cs i m s r

All-le_trans : (cs : List ℕ) (a b : ℕ) → a ≤ b → All (λ c. b ≤ c) cs → All (λ c. a ≤ c) cs
All-le_trans [] a b h all = tt
All-le_trans (c ∷ cs) a b h all = (omega arith, All-le_trans cs a b h all.1)

Found-lower :
    (c : ℕ) (cs : List ℕ) (i m s r : ℕ) → c < m → Found cs (i + 1) c i r → Found (c ∷ cs) i m s r
Found-lower c cs i m s r h (none_below e all) =
    at_offset 0 (omega arith) (omega arith) h (omega arith, all)
Found-lower c cs i m s r h (at_offset k e lt below all) =
    at_offset (suc k) (omega arith) (omega arith) (omega arith) (omega arith, all)

Found-higher :
    (c : ℕ) (cs : List ℕ) (i m s r : ℕ) → m ≤ c → Found cs (i + 1) m s r → Found (c ∷ cs) i m s r
Found-higher c cs i m s r h (none_below e all) = none_below e (h, all)
Found-higher c cs i m s r h (at_offset k e lt below all) =
    at_offset (suc k) (omega arith) (omega arith) below (omega arith, all)

scan-Found :
    (hs : List String) (cs : List ℕ) (i m s : ℕ)
    → length cs ≡ length hs
    → Found cs i m s (scan hs cs i m s)
unfolding scan
scan-Found [] [] i m s e = none_below refl tt
scan-Found [] (c ∷ cs) i m s e = absurd (omega arith)
scan-Found (h ∷ hs) [] i m s e = absurd (omega arith)
scan-Found (h ∷ hs) (c ∷ cs) i m s e = elim (Bool-cases (ltb c m)) [
  | inl lower ↦
      rw lower
        (Found-lower c cs i m s _ (ltb→lt c m lower) (scan-Found hs cs (i + 1) c i (omega arith)))
  | inr higher ↦
      rw higher
        (Found-higher c cs i m s _ (ground arith) (scan-Found hs cs (i + 1) m s (omega arith)))
]

-- Index `r` holds the least of the counts.
abbrev pub Least : List ℕ → ℕ → Type 0
Least cs r = (r < length cs) × All (λ c. get_or cs r 0 ≤ c) cs

Found-Least :
    (cs : List ℕ) (m r : ℕ) → 0 < length cs → All (λ c. c < m) cs → Found cs 0 m 0 r → Least cs r
Found-Least [] m r pos all f = absurd (omega arith)
Found-Least (c ∷ cs) m r pos all (none_below e above) = absurd (omega arith)
Found-Least (c ∷ cs) m r pos all (at_offset k e lt below least) =
    let same : k ≡ r = omega arith in subst (Least (c ∷ cs)) same (lt, least)

single-Least : (cs : List ℕ) → length cs ≡ 1 → Least cs 0
single-Least [] e = absurd (omega arith)
single-Least (c ∷ []) e = (omega arith, (omega arith, tt))
single-Least (c ∷ d ∷ cs) e = absurd (omega arith)

-- By least connections, with a count below the largest int64 for each of at least one hosts, the
-- host selected is one of them and has the least count of all; nothing is changed.
pub select_host-Least :
    (u : HttpUpstream)
    → u.cfg.lb_mode ≡ least_conns
    → 0 < length u.cfg.hosts
    → length u.state.active_connections ≡ length u.cfg.hosts
    → All (λ c. c < max_int64) u.state.active_connections
    → Least u.state.active_connections (select_host u).0 × ((select_host u).1 ≡ u)
unfolding select_host
select_host-Least u mode pos len small = elim (Bool-cases (length u.cfg.hosts == 1)) [
  | inl one ↦ rw one (single-Least _ (ground arith), refl)
  | inr more ↦
      rw (more, mode)
        (
          Found-Least _ _ _ (omega arith) small
              (scan-Found u.cfg.hosts u.state.active_connections 0 max_int64 0 len),
          refl,
        )
]
