-- ===== src/Clients/Guard.antt =====
-- Who is served: a message that needs a session is either refused without a trace, or is the call of the
-- service for the user of the session, and nothing else.
use lan_secure_file_system.Common.{
  ℕ, ◌≡◌, refl, sym, ◌∙◌, ap, ◌⊎◌, inl, inr, Option, none, some, ◌==◌, ==_iff, Bool-cases,
}
use lan_secure_file_system.World.{
  World, ErrorCode, internal_error, auth_required, Outcome, returned, failed, raised, Action, Meets,
  Runs, bind, fail, weaken, on_attempt, on_fail,
}
use lan_secure_file_system.Accounts.{Identity, require_auth}
use lan_secure_file_system.Accounts.Validation.{
  Validated, TokenError, empty, not_kept, incomplete, unread, validate_token-Runs,
}
use lan_secure_file_system.Clients.{
  Command, Answer, command, serve, handle_authenticated_request, handle_request,
}

-- The end of a run as a result
abbrev pub outcome_of : {A : Type 0} → Option ErrorCode → Outcome A
outcome_of none = raised
outcome_of (some code) = failed code

Meets-itself :
    {A : Type 0} (o : Outcome A × World)
    → Meets (λ a q. o ≡ (returned a, q)) (λ code q. o ≡ (outcome_of code, q)) o
Meets-itself (returned a, q) = refl
Meets-itself (failed code, q) = refl
Meets-itself (raised, q) = refl

runs_itself :
    {A : Type 0} (m : Action A) (w : World)
    → Runs m w (λ a q. m w ≡ (returned a, q)) (λ code q. m w ≡ (outcome_of code, q))
runs_itself m w = record { ends = Meets-itself (m w) }

-- The message was served for the user of the session under the token; of the world before, only the count of
-- calls to Redis has changed.
pub record Served (serves : Identity → Action Answer) (token : Option ℕ) (w : World)
    (o : Outcome Answer) (q : World) : Type 0 where
  pub session_token : ℕ
  pub is_token : token ≡ some session_token
  pub identity : Identity
  pub validated : Validated session_token w identity
  pub calls : ℕ
  pub answers : serves identity (record w { calls = calls }) ≡ (o, q)

-- Why a message is refused before it is served
pub data Unserved (token : Option ℕ) (w : World) (code : ErrorCode) : Type 0 where
  no_token : token ≡ none → code ≡ auth_required → Unserved token w code
  empty_token : token ≡ some 0 → code ≡ auth_required → Unserved token w code
  bad_token : (t : ℕ) → token ≡ some t → TokenError t w (some code) → Unserved token w code

-- Refused, with nothing changed but the count of calls
pub record Refused (token : Option ℕ) (w : World) (code : ErrorCode) (q : World) : Type 0 where
  pub reason : Unserved token w code
  pub calls : ℕ
  pub unchanged : q ≡ record w { calls = calls }

RefusedIf : Option ℕ → World → Option ErrorCode → World → Type 0
RefusedIf token w none q = ⊥
RefusedIf token w (some code) q = Refused token w code q

TokenError-RefusedIf :
    (t : ℕ) (w : World) (code : Option ErrorCode) (n : ℕ) (q : World)
    → TokenError t w code
    → q ≡ record w { calls = n }
    → RefusedIf (some t) w code q
unfolding RefusedIf
TokenError-RefusedIf t w code n q (empty e) u = record {
  reason = bad_token t refl (empty e);
  calls = n;
  unchanged = u;
}
TokenError-RefusedIf t w code n q (not_kept e) u = record {
  reason = bad_token t refl (not_kept e);
  calls = n;
  unchanged = u;
}
TokenError-RefusedIf t w code n q (incomplete s e i) u = record {
  reason = bad_token t refl (incomplete s e i);
  calls = n;
  unchanged = u;
}
TokenError-RefusedIf t w code n q (unread f) u = record {
  reason = bad_token t refl (unread f);
  calls = n;
  unchanged = u;
}

serves-Runs :
    (serves : Identity → Action Answer) (t : ℕ) (w q : World) (i : Identity)
    → Validated t w i
    → (n : ℕ) → q ≡ record w { calls = n }
    → Runs
        (serves i)
        q
        (λ a p. Served serves (some t) w (returned a) p)
        (λ code p. RefusedIf (some t) w code p ⊎ Served serves (some t) w (outcome_of code) p)
serves-Runs serves t w q i v n u =
    weaken (runs_itself (serves i) q) (λ a p e. served (returned a) p e)
      (λ code p e. inr (served (outcome_of code) p e))
  where
    served : (o : Outcome Answer) (p : World) → serves i q ≡ (o, p) → Served serves (some t) w o p
    served o p e = record {
      session_token = t;
      is_token = refl;
      identity = i;
      validated = v;
      calls = n;
      answers = ap (serves i) (sym u) ∙ e;
    }

require_auth-Runs :
    (serves : Identity → Action Answer) (token : Option ℕ) (w : World)
    → Runs
        (require_auth serves token)
        w
        (λ a q. Served serves token w (returned a) q)
        (λ code q. RefusedIf token w code q ⊎ Served serves token w (outcome_of code) q)
unfolding require_auth RefusedIf
require_auth-Runs serves none w =
    on_fail _ (inl (record { reason = no_token refl refl; calls = w.calls; unchanged = refl }))
require_auth-Runs serves (some t) w = elim (Bool-cases (t == 0)) [
  | inl e ↦
      rw (require_auth, e)
        (on_fail _ (
          inl (record {
            reason = empty_token (ap some ((==_iff t 0).0 e)) refl;
            calls = w.calls;
            unchanged = refl;
          })))
  | inr e ↦
      rw (require_auth, e)
        (bind (
          weaken (validate_token-Runs t w) (λ i q h. serves-Runs serves t w q i h.0 h.1.0 h.1.1)
            (λ code q h. inl (TokenError-RefusedIf t w code h.1.0 q h.0 h.1.1))))
]

-- An error message: the refusal, the error of the service, or the word for an exception in it.
pub data CommandError (serves : Identity → Action Answer) (token : Option ℕ) (w : World) (q : World)
    : Option ErrorCode → Type 0 where
  unserved : (code : ErrorCode) → Refused token w code q → CommandError serves token w q (some code)
  failing :
      (code : ErrorCode)
      → Served serves token w (failed code) q
      → CommandError serves token w q (some code)
  broken : Served serves token w raised q → CommandError serves token w q (some internal_error)

settled :
    (serves : Identity → Action Answer) (token : Option ℕ) (w : World) (code : Option ErrorCode)
    (q : World)
    → RefusedIf token w code q ⊎ Served serves token w (outcome_of code) q
    → elim code as (λ _. Type 0) [
      | none ↦
          Runs
            (fail internal_error)
            q
            (λ a p. Served serves token w (returned a) p)
            (λ c p. CommandError serves token w p c)
      | some c ↦ CommandError serves token w q (some c)
    ]
unfolding RefusedIf
settled serves token w none q (inl h) = absurd h
settled serves token w none q (inr h) = on_fail _ (broken h)
settled serves token w (some code) q (inl h) = unserved code h
settled serves token w (some code) q (inr h) = failing code h

-- A message that needs a session is served exactly for the user and the role of the session that Redis keeps
-- under its token: the answer and everything that changes are then those of the handler for this user, an
-- exception in it being answered INTERNAL_ERROR. Without such a session it is refused, with AUTH_REQUIRED
-- where the token is missing or empty and else with the error of the token, and changes nothing. It never
-- raises.
pub command_is_guarded :
    (token : Option ℕ) (c : Command) (w : World)
    → Runs
        (handle_request (command token c))
        w
        (λ a q. Served (λ i. serve i c) token w (returned a) q)
        (λ code q. CommandError (λ i. serve i c) token w q code)
unfolding handle_request handle_authenticated_request
command_is_guarded token c w = on_attempt _ _ (
    weaken (require_auth-Runs (λ i. serve i c) token w) (λ a q h. h)
      (settled (λ i. serve i c) token w))
