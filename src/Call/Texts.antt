-- ===== src/Call/Texts.antt =====
-- Which calls the call pad, assignment2/call.c, sends.
use cab403work.Base.{
  take-all, ◌≤◌, ◌≡◌, ◌≢◌, ap, ◌∙◌, inl, inr, ◌↔◌, [], ◌∷◌, ◌++◌, arith, Bool-cases, true, length,
  length-append,
}
use cab403work.Base.Text.{Bytes, codes}
use cab403work.Libc.{streq, streq_iff}
use cab403work.Shared.Floors.{validate_floor_input, validate_floor_input-length}
use cab403work.Call.{send, call_message, request}

call_message-whole :
    (source destination : Bytes)
    → length source ≤ 4
    → length destination ≤ 4
    → call_message source destination ≡ codes "CALL " ++ (source ++ (codes " " ++ destination))
unfolding call_message
call_message-whole source destination h k =
    ap (λ t. codes "CALL " ++ t)
      (take-all 9 (source ++ (codes " " ++ destination))
        (omega (arith, length-append source (codes " " ++ destination))))

pub request-send :
    (source destination : Bytes)
    → validate_floor_input source ≡ true
    → validate_floor_input destination ≡ true
    → source ≢ destination
    → request (source ∷ destination ∷ []) ≡ send (call_message source destination)
unfolding request
request-send source destination s d differ = elim (Bool-cases (streq source destination)) [
  | inl same ↦ absurd (differ ((streq_iff source destination).0 same))
  | inr other ↦ rw (s, d, other)
]

send-request :
    (source destination : Bytes) {text : Bytes}
    → request (source ∷ destination ∷ []) ≡ send text
    → (validate_floor_input source ≡ true)
      × (validate_floor_input destination ≡ true)
      × (source ≢ destination)
unfolding request
send-request source destination h = ground (arith, streq_iff source destination)

-- A run with two arguments sends its call, with both floors whole, exactly when both floors are
-- accepted and are different texts.
request-send_iff :
    (source destination : Bytes)
    → ((validate_floor_input source ≡ true)
        × (validate_floor_input destination ≡ true)
        × (source ≢ destination))
      ↔ (request (source ∷ destination ∷ [])
          ≡ send (codes "CALL " ++ (source ++ (codes " " ++ destination))))
request-send_iff source destination = (to, from)
  where
    to :
        (validate_floor_input source ≡ true)
          × (validate_floor_input destination ≡ true)
          × (source ≢ destination)
        → request (source ∷ destination ∷ [])
          ≡ send (codes "CALL " ++ (source ++ (codes " " ++ destination)))
    to (s, d, differ) =
        request-send source destination s d differ
        ∙ ap send (
            call_message-whole source destination (validate_floor_input-length source s)
              (validate_floor_input-length destination d))

    from :
        request (source ∷ destination ∷ [])
          ≡ send (codes "CALL " ++ (source ++ (codes " " ++ destination)))
        → (validate_floor_input source ≡ true)
          × (validate_floor_input destination ≡ true)
          × (source ≢ destination)
    from h = send-request source destination h
