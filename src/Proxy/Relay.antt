-- ===== src/Proxy/Relay.antt =====
-- What relayTransportStatus of internal/harbor/proxy.go passes on to the client.
use adb_harbor.Prelude.{
  ◌≡◌, refl, sym, ap, ◌∙◌, ◌<◌, ℕ, suc, ltb, leb, Bool, true, false, not, ◌&&◌, some, [], ◌++◌,
  arith, if◌then◌else◌, length, take, drop, append_assoc, append-nil, Bool-cases, Option-cases,
  zero, inl, inr,
}
use adb_harbor.Text.{Text, text, text_eq}
use adb_harbor.Text.Lines.{take-drop}
use adb_harbor.Wire.{scan_signed, write_fail}
use adb_harbor.Wire.Frames.{
  four_digits, scan-four_digits, write_msg-four_digits, take-append, drop-append,
}
use adb_harbor.Proxy.{Relayed, copy_message, relay_failure, relay_okay, relay_transport_status}

-- A length below 65536 makes io.CopyN copy so many bytes.
copy_message-number :
    (n : ℕ) (digits bytes : Text)
    → scan_signed digits ≡ some (false, n)
    → n < 65536
    → copy_message digits bytes ≡ (take n bytes, drop n bytes)
unfolding copy_message
copy_message-number zero digits bytes e h = rw (e, copy_message) refl
copy_message-number (suc n) digits bytes e h = rw (e, copy_message) (ground arith)

copy_message-four_digits :
    (msg rest : Text)
    → length msg < 65536
    → copy_message (four_digits (length msg)) (msg ++ rest) ≡ (msg, rest)
copy_message-four_digits msg rest h =
    copy_message-number (length msg) (four_digits (length msg)) (msg ++ rest)
      (scan-four_digits (length msg) h) h
    ∙ ap (λ t. (t, drop (length msg) (msg ++ rest))) (take-append msg rest)
    ∙ ap (λ t. (msg, t)) (drop-append msg rest)

relay_failure-four_digits :
    (status msg rest : Text)
    → length msg < 65536
    → relay_failure status (four_digits (length msg) ++ (msg ++ rest))
      ≡ record { goes_on = false; sent = status ++ (four_digits (length msg) ++ msg); rest = rest }
unfolding relay_failure
relay_failure-four_digits status msg rest h =
    rw (long, relay_failure) (ap outcome (copy_message-four_digits msg rest h))
  where
    long : ltb (length (four_digits (length msg) ++ (msg ++ rest))) 4 ≡ false
    long = ground arith

    outcome : Text × Text → Relayed
    outcome p = record {
      goes_on = false;
      sent = status ++ (four_digits (length msg) ++ p.0);
      rest = p.1;
    }

-- The bytes of a failure whose message has less than 65536 bytes.
write_fail-four_digits :
    (msg rest : Text)
    → length msg < 65536
    → write_fail msg ++ rest ≡ text "FAIL" ++ (four_digits (length msg) ++ (msg ++ rest))
unfolding write_fail
write_fail-four_digits msg rest h = ap (λ t. text "FAIL" ++ t) (write_msg-four_digits msg rest h)

relay-fail_status :
    (tport takes_id : Bool) (bytes : Text)
    → relay_transport_status tport true takes_id (text "FAIL" ++ bytes)
      ≡ relay_failure (text "FAIL") bytes
unfolding relay_transport_status text_eq
relay-fail_status tport takes_id bytes = rw (long, relay_transport_status) refl
  where
    long : ltb (length (text "FAIL" ++ bytes)) 4 ≡ false
    long = ground arith

-- A failure of the server is passed on whole when its message has less than 65536 bytes, what the server sends
-- behind it is not read, and the conversation ends.
pub relay-write_fail :
    (tport takes_id : Bool) (msg rest : Text)
    → length msg < 65536
    → relay_transport_status tport true takes_id (write_fail msg ++ rest)
      ≡ record { goes_on = false; sent = write_fail msg; rest = rest }
relay-write_fail tport takes_id msg rest h =
    ap (relay_transport_status tport true takes_id) (write_fail-four_digits msg rest h)
    ∙ relay-fail_status tport takes_id (four_digits (length msg) ++ (msg ++ rest))
    ∙ relay_failure-four_digits (text "FAIL") msg rest h
    ∙ ap (λ t. record { goes_on = false; sent = t; rest = rest }) whole
  where
    whole : text "FAIL" ++ (four_digits (length msg) ++ msg) ≡ write_fail msg
    whole =
        ap (λ t. text "FAIL" ++ (four_digits (length msg) ++ t)) (sym (append-nil msg))
        ∙ sym (write_fail-four_digits msg [] h)
        ∙ append-nil (write_fail msg)

-- A beginning of some bytes.
abbrev pub IsBeginningOf : Text → Text → Type 0
IsBeginningOf s bytes = (tail : Text) × (s ++ tail ≡ bytes)

copy_message-beginning : (digits bytes : Text) → IsBeginningOf (copy_message digits bytes).0 bytes
unfolding copy_message
copy_message-beginning digits bytes = elim (Option-cases (scan_signed digits)) [
  | inl e ↦ rw (e, copy_message) (bytes, refl)
  | inr ((negative, n), e) ↦
      rw (e, copy_message) (by_test (not negative && ltb 0 n && leb n 1048576) n)
]
  where
    by_test :
        (b : Bool) (n : ℕ)
        → IsBeginningOf
            (let r : Text × Text = if b then (take n bytes, drop n bytes) else ([], bytes) in r.0)
            bytes
    by_test true n = (drop n bytes, take-drop n bytes)
    by_test false n = (bytes, refl)

relay_failure-beginning :
    (status bytes : Text) → IsBeginningOf (relay_failure status bytes).sent (status ++ bytes)
unfolding relay_failure
relay_failure-beginning status bytes = elim (Bool-cases (ltb (length bytes) 4)) [
  | inl e ↦ rw (e, relay_failure) (bytes, refl)
  | inr e ↦
      let (tail, f) = copy_message-beginning (take 4 bytes) (drop 4 bytes) in
      rw (e, relay_failure) (tail, joined (copy_message (take 4 bytes) (drop 4 bytes)).0 tail f)
]
  where
    joined :
        (copied tail : Text)
        → copied ++ tail ≡ drop 4 bytes
        → (status ++ (take 4 bytes ++ copied)) ++ tail ≡ status ++ bytes
    joined copied tail f =
        append_assoc status (take 4 bytes ++ copied) tail
        ∙ ap (λ t. status ++ t)
            (append_assoc (take 4 bytes) copied tail
              ∙ ap (λ t. take 4 bytes ++ t) f
              ∙ take-drop 4 bytes)

relay_okay-beginning :
    (tport : Bool) (status bytes : Text) (takes : Bool)
    → IsBeginningOf (relay_okay tport status bytes takes).sent (status ++ bytes)
unfolding relay_okay
relay_okay-beginning false status bytes takes = (bytes, refl)
relay_okay-beginning true status bytes takes = by_tests (ltb (length bytes) 8) takes
  where
    by_tests :
        (short takes : Bool)
        → IsBeginningOf
            (let r : Relayed =
                if short
                then record { goes_on = false; sent = status; rest = [] }
                else if takes
                then record { goes_on = true; sent = status ++ take 8 bytes; rest = drop 8 bytes }
                else record { goes_on = false; sent = status; rest = drop 8 bytes } in
              r.sent)
            (status ++ bytes)
    by_tests true t = (bytes, refl)
    by_tests false false = (bytes, refl)
    by_tests false true = (
      drop 8 bytes,
      append_assoc status (take 8 bytes) (drop 8 bytes) ∙ ap (λ t. status ++ t) (take-drop 8 bytes),
    )

-- Whatever the server sends, and whichever writes the client takes, what is written to the client is a beginning
-- of the server's bytes, unchanged.
pub relay-beginning :
    (tport takes_status takes_id : Bool) (bytes : Text)
    → IsBeginningOf (relay_transport_status tport takes_status takes_id bytes).sent bytes
unfolding relay_transport_status
relay-beginning tport takes_status takes_id bytes =
    by_tests (ltb (length bytes) 4) takes_status (text_eq (take 4 bytes) (text "OKAY"))
  where
    rejoined : (s : Text) → IsBeginningOf s (take 4 bytes ++ drop 4 bytes) → IsBeginningOf s bytes
    rejoined s (tail, e) = (tail, e ∙ take-drop 4 bytes)

    by_tests :
        (short takes okay : Bool)
        → IsBeginningOf
            (let r : Relayed =
                if short
                then record { goes_on = false; sent = []; rest = [] }
                else if not takes
                then record { goes_on = false; sent = []; rest = drop 4 bytes }
                else if okay
                then relay_okay tport (take 4 bytes) (drop 4 bytes) takes_id
                else relay_failure (take 4 bytes) (drop 4 bytes) in
              r.sent)
            bytes
    by_tests true t o = (bytes, refl)
    by_tests false false o = (bytes, refl)
    by_tests false true true =
        rejoined _ (relay_okay-beginning tport (take 4 bytes) (drop 4 bytes) takes_id)
    by_tests false true false = rejoined _ (relay_failure-beginning (take 4 bytes) (drop 4 bytes))
