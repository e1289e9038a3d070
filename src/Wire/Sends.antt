-- ===== src/Wire/Sends.antt =====
-- What an action sends over a connection whose operations all succeed, and what the peer reads.
use mathlib.Core.List.{append_assoc, append-nil}
use enimul.Common.{
  ℕ, ◌+◌, Bool, true, false, none, List, [], ◌∷◌, ◌++◌, ◌≡◌, refl, sym, ap, ◌∙◌, if◌then◌else◌,
  Bytes,
}
use enimul.Common.Result.{Error, op_error}
use enimul.Wire.{Event, wrote, urgent, waited, Conn, ok, M, ◌>>◌, pure, perform, wait_for_ack}

-- Every operation on the connection succeeds.
abbrev pub IsQuiet : Conn → Type 0
IsQuiet c = (k : ℕ) → c.reply k ≡ none

-- From a quiet connection the action succeeds, and adds the events `es` to the log.
pub record Sent (m : M (Unit {0})) (es : List Event) (c : Conn) : Type 0 where
  pub after : Conn
  pub succeeds : m c ≡ (ok tt, after)
  pub quiet : IsQuiet after
  pub log : after.sent ≡ c.sent ++ es

pub record Sends (m : M (Unit {0})) (es : List Event) : Type 0 where
  pub run : (c : Conn) → IsQuiet c → Sent m es c

pub Sends-perform : (wrap : Error → Error) (ev : Event) → Sends (perform wrap ev) (ev ∷ [])
unfolding perform
Sends-perform wrap ev = record {
  run = λ c q. record {
    after = record c { turn = c.turn + 1; sent = c.sent ++ ev ∷ [] };
    succeeds = rw (q c.turn, perform) refl;
    quiet = q;
    log = refl;
  };
}

pub Sends-wait_for_ack : (enabled : Bool) → Sends (wait_for_ack enabled) (waited ∷ [])
unfolding wait_for_ack
Sends-wait_for_ack true = Sends-perform (op_error "wait for ack") waited
Sends-wait_for_ack false = record {
  run = λ c q. record {
    after = record c { sent = c.sent ++ waited ∷ [] };
    succeeds = refl;
    quiet = q;
    log = refl;
  };
}

pub Sends-pure : Sends (pure tt) []
Sends-pure = record {
  run = λ c q. record { after = c; succeeds = refl; quiet = q; log = sym (append-nil c.sent) };
}

pub Sends-then :
    {m k : M (Unit {0})} {es fs : List Event} → Sends m es → Sends k fs → Sends (m >> k) (es ++ fs)
Sends-then {m} {k} {es} {fs} s t = record {
  run = λ c q.
      let first = s.run c q in
      let second = t.run first.after first.quiet in
      record {
        after = second.after;
        succeeds = rw first.succeeds second.succeeds;
        quiet = second.quiet;
        log = second.log ∙ ap (λ l. l ++ fs) first.log ∙ append_assoc c.sent es fs;
      };
}

-- There is an urgent byte among the events.
abbrev pub has_urgent : List Event → Bool
has_urgent [] = false
has_urgent (wrote bs ∷ es) = has_urgent es
has_urgent (urgent bs b ∷ es) = true
has_urgent (waited ∷ es) = has_urgent es

-- The stream that the peer reads: the last urgent byte is taken out of it, and one that a later
-- urgent byte replaces stays in.
unfoldable pub delivered : List Event → Bytes
delivered [] = []
delivered (wrote bs ∷ es) = bs ++ delivered es
delivered (urgent bs b ∷ es) =
    let rest = delivered es in bs ++ (if has_urgent es then b ∷ rest else rest)
delivered (waited ∷ es) = delivered es
