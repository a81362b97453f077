-- ===== src/Proxy/Readahead.antt =====
-- internal/harbor/proxy.go: readaheadConn and the clientCloseWatcher, which buffers what a client sends while
-- the proxy waits for a lease, so that the reads that follow get it.
use adb_harbor.Prelude.{
  ◌≡◌, refl, sym, ap, ◌∙◌, ◌<◌, ℕ, zero, suc, ◌-◌, ltb, Bool, true, false, not, List, [], ◌∷◌, ◌++◌,
  arith, if◌then◌else◌, length, take, drop, append_assoc, append-nil,
}
use adb_harbor.Text.{Text, is_empty}
use adb_harbor.Text.Lines.{take-drop}

-- A connection with its buffer: `waiting` are the bytes that have arrived and were not read, `closed` tells
-- that no more will come.
pub record Conn : Type 0 where
  pub prefix : Text
  pub waiting : Text
  pub closed : Bool

-- A read returns bytes, with an error at the end of the input; or it blocks, with the bytes that it has already
-- put into the caller's buffer.
pub data Got : Type 0 where
  returned : (bytes : Text) (error : Bool) → Got
  blocked : (bytes : Text) → Got

-- Read of the connection below, behind the bytes `copied`.
unfoldable pub read_below : Text → ℕ → Conn → Got × Conn
read_below copied n c =
    if not (is_empty c.waiting)
    then (returned (copied ++ take n c.waiting) false, record c { waiting = drop n c.waiting })
    else if c.closed
    then (returned copied true, c)
    else (blocked copied, c)

-- (*readaheadConn).Read into a buffer of `n` bytes.
unfoldable pub read : ℕ → Conn → Got × Conn
unfolding read_below
read n c =
    if not (is_empty c.prefix)
    then (let copied = take n c.prefix in
        let c' : Conn = record c { prefix = drop n c.prefix } in
        if ltb (length copied) n
        then read_below copied (n - length copied) c'
        else (returned copied false, c'))
    else read_below [] n c

abbrev pub bytes_of : Got → Text
bytes_of (returned bytes error) = bytes
bytes_of (blocked bytes) = bytes

-- What the client has sent and nobody has read, in order.
abbrev pub unread : Conn → Text
unread c = c.prefix ++ c.waiting

-- One round of the watcher's loop: it was stopped before, the deadline could not be set, or a read returned
-- bytes, with what became of it and whether the watcher was stopped meanwhile.
pub data Outcome : Type 0 where
  fine timed_out broken : Outcome

pub data Round : Type 0 where
  stopped no_deadline : Round
  reads : (bytes : Text) (outcome : Outcome) (stopped_meanwhile : Bool) → Round

-- The buffer, whether the wait for the lease was aborted, and whether the watcher still runs.
pub record Watched : Type 0 where
  pub prefix : Text
  pub aborted : Bool
  pub runs : Bool

-- (*clientCloseWatcher).run, from the buffer `p`.
unfoldable pub watch : Text → List Round → Watched
watch p [] = record { prefix = p; aborted = false; runs = true }
watch p (stopped ∷ rounds) = record { prefix = p; aborted = false; runs = false }
watch p (no_deadline ∷ rounds) = record { prefix = p; aborted = true; runs = false }
watch p (reads b o true ∷ rounds) = record { prefix = p ++ b; aborted = false; runs = false }
watch p (reads b fine false ∷ rounds) = watch (p ++ b) rounds
watch p (reads b timed_out false ∷ rounds) = watch p rounds
watch p (reads b broken false ∷ rounds) = record { prefix = p; aborted = true; runs = false }

-- The bytes that the client sent in the rounds, until the watcher ended, save those that a read returned together with
-- an error: run() does not look at them.
unfoldable pub delivered : List Round → Text
delivered [] = []
delivered (stopped ∷ rounds) = []
delivered (no_deadline ∷ rounds) = []
delivered (reads b o true ∷ rounds) = b
delivered (reads b fine false ∷ rounds) = b ++ delivered rounds
delivered (reads b timed_out false ∷ rounds) = delivered rounds
delivered (reads b broken false ∷ rounds) = []

-- The watcher's buffer is what it was, and behind it the bytes of its rounds.
watch-delivered : (p : Text) (rounds : List Round) → (watch p rounds).prefix ≡ p ++ delivered rounds
unfolding watch delivered
watch-delivered p [] = sym (append-nil p)
watch-delivered p (stopped ∷ rounds) = sym (append-nil p)
watch-delivered p (no_deadline ∷ rounds) = sym (append-nil p)
watch-delivered p (reads b o true ∷ rounds) = refl
watch-delivered p (reads b fine false ∷ rounds) =
    watch-delivered (p ++ b) rounds ∙ append_assoc p b (delivered rounds)
watch-delivered p (reads b timed_out false ∷ rounds) = watch-delivered p rounds
watch-delivered p (reads b broken false ∷ rounds) = sym (append-nil p)

drop-short : (n : ℕ) (s : Text) → ltb (length (take n s)) n ≡ true → drop n s ≡ []
drop-short zero s h = absurd (ground arith)
drop-short (suc n) [] h = refl
drop-short (suc n) (c ∷ s) h = drop-short n s (ground arith)

nil_of_empty : (s : Text) → is_empty s ≡ true → s ≡ []
nil_of_empty [] h = refl
nil_of_empty (c ∷ s) h = cc

read_below-order :
    (copied : Text) (n : ℕ) (c : Conn)
    → c.prefix ≡ []
    → let (got, c') = read_below copied n c in bytes_of got ++ unread c' ≡ copied ++ unread c
unfolding read_below
read_below-order copied n c e = by_tests (is_empty c.waiting) c.closed
  where
    by_tests :
        (none_waits closed : Bool)
        → (let r : Got × Conn =
              if not none_waits
              then (
                returned (copied ++ take n c.waiting) false,
                record c { waiting = drop n c.waiting },
              )
              else if closed
              then (returned copied true, c)
              else (blocked copied, c) in
            bytes_of r.0 ++ unread r.1)
          ≡ copied ++ unread c
    by_tests true true = refl
    by_tests true false = refl
    by_tests false closed = rw e (
        append_assoc copied (take n c.waiting) (drop n c.waiting)
        ∙ ap (λ t. copied ++ t) (take-drop n c.waiting))

-- A read gives the client's bytes in the order in which they were sent: what it puts into the caller's buffer,
-- and what is unread after it, is what was unread before.
pub read-order :
    (n : ℕ) (c : Conn) → let (got, c') = read n c in bytes_of got ++ unread c' ≡ unread c
unfolding read
read-order n c = by_tests (is_empty c.prefix) (ltb (length (take n c.prefix)) n) refl refl
  where
    copied : Text
    copied = take n c.prefix

    later : Conn
    later = record c { prefix = drop n c.prefix }

    rejoined : copied ++ unread later ≡ unread c
    rejoined =
        sym (append_assoc copied (drop n c.prefix) c.waiting)
        ∙ ap (λ t. t ++ c.waiting) (take-drop n c.prefix)

    by_tests :
        (none few : Bool)
        → is_empty c.prefix ≡ none
        → ltb (length copied) n ≡ few
        → (let r : Got × Conn =
              if not none
              then if few
                then read_below copied (n - length copied) later
                else (returned copied false, later)
              else read_below [] n c in
            bytes_of r.0 ++ unread r.1)
          ≡ unread c
    by_tests true few e f = read_below-order [] n c (nil_of_empty c.prefix e)
    by_tests false true e f =
        read_below-order copied (n - length copied) later (drop-short n c.prefix f) ∙ rejoined
    by_tests false false e f = rejoined

-- What is read and what is left, of one read and of those behind it, which are not made when it blocks.
abbrev then_read : Got × Conn → Text × Text → Text × Text
then_read (returned bytes error, c) (more, left) = (bytes ++ more, left)
then_read (blocked bytes, c) (more, left) = (bytes, unread c)

-- Reads into buffers of these sizes, one after the other, until one blocks: all the bytes that they put into the
-- buffers, and what is unread after them.
unfoldable pub read_all : List ℕ → Conn → Text × Text
read_all [] c = ([], unread c)
read_all (n ∷ ns) c = let r = read n c in then_read r (read_all ns r.1)

then_read-order :
    (r : Got × Conn) (m : Text × Text) (t : Text)
    → m.0 ++ m.1 ≡ unread r.1
    → bytes_of r.0 ++ unread r.1 ≡ t
    → (then_read r m).0 ++ (then_read r m).1 ≡ t
then_read-order (returned bytes error, c) (more, left) t e f =
    append_assoc bytes more left ∙ ap (λ u. bytes ++ u) e ∙ f
then_read-order (blocked bytes, c) m t e f = f

read_all-order : (ns : List ℕ) (c : Conn) → (read_all ns c).0 ++ (read_all ns c).1 ≡ unread c
unfolding read_all
read_all-order [] c = refl
read_all-order (n ∷ ns) c =
    then_read-order (read n c) (read_all ns (read n c).1) (unread c)
      (read_all-order ns (read n c).1) (read-order n c)

-- The proxy reads the client's bytes in the order in which they were sent, across the wait for a lease: any reads after
-- the wait, into buffers of any sizes, give what was buffered before it, then what the client sent during it, then what
-- it has sent since, and what they do not give is unread. Of the bytes sent during the wait those are excepted that a
-- read of the watcher returned together with an error.
pub read_all-watch :
    (p : Text) (rounds : List Round) (waiting : Text) (closed : Bool) (ns : List ℕ)
    → let (got, left) =
        read_all ns
          (record { prefix = (watch p rounds).prefix; waiting = waiting; closed = closed }) in
      got ++ left ≡ p ++ delivered rounds ++ waiting
read_all-watch p rounds waiting closed ns =
    read_all-order ns
      (record { prefix = (watch p rounds).prefix; waiting = waiting; closed = closed })
    ∙ ap (λ t. t ++ waiting) (watch-delivered p rounds)

take-all : (n : ℕ) (s : Text) → length s < n → take n s ≡ s
take-all zero s h = elim h [ ]
take-all (suc n) [] h = refl
take-all (suc n) (c ∷ s) h = ap (λ t. c ∷ t) (take-all n s (omega arith))

-- When the buffered bytes are fewer than the caller asks for, and the client sends nothing more for now, a read does
-- not return the bytes that it has: it blocks.
pub read-blocks :
    (n : ℕ) (p : Text)
    → is_empty p ≡ false
    → length p < n
    → (read n (record { prefix = p; waiting = []; closed = false })).0 ≡ blocked p
unfolding read
read-blocks n p some few = ground (arith, take-all n p)
