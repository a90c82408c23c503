-- ===== src/Session/Terminals.antt =====
-- The terminals of a session keep their numbers: sa-token-core/src/session/mod.rs.
use sa_token_rust.Common.{
  ℕ, ◌+◌, ◌^◌, ◌<◌, ◌≤◌, ◌≡◌, refl, String, List, [], ◌∷◌, ◌++◌, arith, ◌==◌, Bool-cases, inl, inr,
}
use mathlib.Core.Path.{subst}
use sa_token_rust.Common.Int.{pos}
use sa_token_rust.Session.{
  SaTerminalInfo, SaSession, succ_i32, add_terminal, drop_first, remove_terminal, new,
}

-- What happens to the terminals of a session.
pub data Change (Value : Type 0) : Type 0 where
  login : SaTerminalInfo Value → Change Value
  logout : String → Change Value

module _ {Value : Type 0} where
  -- The indices ascend from `lo`, which they exceed, to `hi`.
  abbrev pub Ascending : ℕ → ℕ → List (SaTerminalInfo Value) → Type 0
  Ascending lo hi [] = lo ≤ hi
  Ascending lo hi (t ∷ ts) = (i : ℕ) × (t.index ≡ pos i) × (lo < i) × Ascending i hi ts

  -- The terminals of a session are numbered in the order of their logins, each below the next and
  -- none above the number of logins.
  abbrev pub IsNumbered : ℕ → SaSession Value → Type 0
  IsNumbered n s = (s.history_terminal_count ≡ pos n) × Ascending 0 n s.terminal_list

  Ascending-append :
      (lo hi : ℕ) (t : SaTerminalInfo Value) (ts : List (SaTerminalInfo Value))
      → t.index ≡ pos (hi + 1)
      → Ascending lo hi ts
      → Ascending lo (hi + 1) (ts ++ t ∷ [])
  Ascending-append lo hi t [] e h = (hi + 1, e, omega arith, omega arith)
  Ascending-append lo hi t (u ∷ ts) e (i, at, above, rest) =
      (i, at, above, Ascending-append i hi t ts e rest)

  Ascending-weaken :
      (lo lo' hi : ℕ) (ts : List (SaTerminalInfo Value))
      → lo ≤ lo'
      → Ascending lo' hi ts
      → Ascending lo hi ts
  Ascending-weaken lo lo' hi [] le h = omega arith
  Ascending-weaken lo lo' hi (t ∷ ts) le (i, at, above, rest) = (i, at, omega arith, rest)

  drop_first-Ascending :
      (token : String) (lo hi : ℕ) (ts : List (SaTerminalInfo Value))
      → Ascending lo hi ts
      → Ascending lo hi (drop_first token ts)
  unfolding drop_first
  drop_first-Ascending token lo hi [] h = h
  drop_first-Ascending token lo hi (t ∷ ts) (i, at, above, rest) =
      elim (Bool-cases (t.token_value == token)) [
        | inl e ↦ rw e (Ascending-weaken lo i hi ts (omega arith) rest)
        | inr e ↦ rw e (i, at, above, drop_first-Ascending token i hi ts rest)
      ]

  add_terminal-IsNumbered :
      (n : ℕ) (s : SaSession Value) (t : SaTerminalInfo Value)
      → n + 1 < 2 ^ 31
      → IsNumbered n s
      → IsNumbered (n + 1) (add_terminal s t)
  unfolding add_terminal succ_i32
  add_terminal-IsNumbered n s t small (count, ascending) =
      let next : succ_i32 s.history_terminal_count ≡ pos (n + 1) = rw count (ground arith) in
      (next, Ascending-append 0 n _ s.terminal_list next ascending)

  remove_terminal-IsNumbered :
      (n : ℕ) (s : SaSession Value) (token : String)
      → IsNumbered n s
      → IsNumbered n (remove_terminal s token).1
  unfolding remove_terminal
  remove_terminal-IsNumbered n s token (count, ascending) =
      (count, drop_first-Ascending token 0 n s.terminal_list ascending)

  unfoldable pub change : SaSession Value → Change Value → SaSession Value
  unfolding add_terminal remove_terminal
  change s (login t) = add_terminal s t
  change s (logout token) = (remove_terminal s token).1

  unfoldable pub changes : SaSession Value → List (Change Value) → SaSession Value
  unfolding change
  changes s [] = s
  changes s (c ∷ cs) = changes (change s c) cs

  abbrev pub logins : List (Change Value) → ℕ
  logins [] = 0
  logins (login t ∷ cs) = logins cs + 1
  logins (logout token ∷ cs) = logins cs

  changes-IsNumbered :
      (n : ℕ) (cs : List (Change Value)) (s : SaSession Value)
      → n + logins cs < 2 ^ 31
      → IsNumbered n s
      → IsNumbered (n + logins cs) (changes s cs)
  unfolding changes change
  changes-IsNumbered n [] s small h =
      subst (λ k. IsNumbered k s) {x = n} {y = n + 0} (omega arith) h
  changes-IsNumbered n (login t ∷ cs) s small h =
      subst (λ k. IsNumbered k (changes (add_terminal s t) cs)) {x = n + 1 + logins cs}
        {y = n + (logins cs + 1)} (omega arith)
        (changes-IsNumbered (n + 1) cs (add_terminal s t) (omega arith)
          (add_terminal-IsNumbered n s t (omega arith) h))
  changes-IsNumbered n (logout token ∷ cs) s small h =
      changes-IsNumbered n cs (remove_terminal s token).1 small
        (remove_terminal-IsNumbered n s token h)

  -- After any sequence of fewer than 2^31 logins and any number of logouts on a new session, its
  -- count is the number of logins, and its terminals have ascending numbers from 1 up to the count:
  -- no number is given twice.
  pub new-IsNumbered :
      (id : String) (now : ℕ) (cs : List (Change Value))
      → logins cs < 2 ^ 31
      → IsNumbered (logins cs) (changes (new id now) cs)
  unfolding new
  new-IsNumbered id now cs small =
      subst (λ k. IsNumbered k (changes (new id now) cs)) {x = 0 + logins cs} {y = logins cs}
        (omega arith) (changes-IsNumbered 0 cs (new id now) (omega arith) (refl, omega arith))
