-- ===== src/Ntp/Matching.antt =====
-- Which query a response answers.
use brewster.Common.{◌++◌}
use brewster.Common.{
  ℕ, ◌≡◌, refl, ap, inl, inr, true, false, not, ◌&&◌, Option, none, some, List, [], ◌∷◌, arith,
  Bool-cases, Option-cases, bytes_eq, bytes_eq→eq,
}
use brewster.Ntp.{PendingQuery, match_response}
use mathlib.Core.Path.{subst}
use brewster.Common.{
  ℕ, ap, Bool-cases, Option-cases, inl, inr, bytes_eq, bytes_eq→eq, not, ◌&&◌, refl, arith,
}
use brewster.Common.{All}
use brewster.Common.{Bool}

-- The query waits, and the response has its token.
abbrev pub matches : {S : Type 0} → List ℕ → PendingQuery S → Bool
matches resp_token p = not p.done && bytes_eq p.token resp_token

-- The query `m.0` is taken, and `m.1` are the queries after that.
abbrev pub Taken :
    {S : Type 0} → List ℕ → List (PendingQuery S) → PendingQuery S × List (PendingQuery S) → Type 0
Taken {S = S} resp_token pending m =
    (front : List (PendingQuery S)) × (rest : List (PendingQuery S)) × (pending
      ≡ front ++ (m.0 ∷ rest))
    × (m.1 ≡ front ++ (record (m.0) { done = true } ∷ rest))
    × (m.0.done ≡ false)
    × (m.0.token ≡ resp_token)
    × All (λ p. matches resp_token p ≡ false) front

abbrev OnMatch :
    {S : Type 0}
    → List ℕ
    → List (PendingQuery S)
    → Option (PendingQuery S × List (PendingQuery S))
    → Type 0
OnMatch resp_token pending none = All (λ p. matches resp_token p ≡ false) pending
OnMatch resp_token pending (some m) = Taken resp_token pending m

first-Taken :
    {S : Type 0} (resp_token : List ℕ) (p : PendingQuery S) (pending : List (PendingQuery S))
    → matches resp_token p ≡ true
    → Taken resp_token (p ∷ pending) (p, record p { done = true } ∷ pending)
first-Taken resp_token p pending b =
    let e : p.done ≡ false = ground arith in
    let same : bytes_eq p.token resp_token ≡ true = ground arith in
    ([], pending, refl, refl, e, bytes_eq→eq p.token resp_token same, record {})

later-Taken :
    {S : Type 0} (resp_token : List ℕ) (p : PendingQuery S) (pending : List (PendingQuery S))
    (m : PendingQuery S × List (PendingQuery S))
    → matches resp_token p ≡ false
    → Taken resp_token pending m
    → Taken resp_token (p ∷ pending) (m.0, p ∷ m.1)
later-Taken resp_token p pending m b (front, rest, e1, e2, fresh, token, first) =
    (p ∷ front, rest, ap (λ qs. p ∷ qs) e1, ap (λ qs. p ∷ qs) e2, fresh, token, (b, first))

match_response-OnMatch :
    {S : Type 0} (resp_token : List ℕ) (pending : List (PendingQuery S))
    → OnMatch resp_token pending (match_response resp_token pending)
unfolding match_response
match_response-OnMatch resp_token [] = record {}
match_response-OnMatch resp_token (p ∷ pending) =
    let below = match_response-OnMatch resp_token pending in
    elim (Bool-cases (matches resp_token p)) [
      | inl b ↦ rw b (first-Taken resp_token p pending b)
      | inr b ↦ elim (Option-cases (match_response resp_token pending)) [
        | inl h ↦ rw (b, h) (b, subst (OnMatch resp_token pending) h below)
        | inr (m, h) ↦
            rw (b, h)
              (later-Taken resp_token p pending m b (subst (OnMatch resp_token pending) h below))
      ]
    ]

-- A response is taken for the first query that still waits and whose token it carries. Exactly
-- that query is marked as done, and all others stay as they are, in their places.
pub match_response_lem :
    {S : Type 0} (resp_token : List ℕ) (pending after : List (PendingQuery S)) (q : PendingQuery S)
    → match_response resp_token pending ≡ some (q, after)
    → Taken resp_token pending (q, after)
match_response_lem resp_token pending after q e =
    subst (OnMatch resp_token pending) e (match_response-OnMatch resp_token pending)
