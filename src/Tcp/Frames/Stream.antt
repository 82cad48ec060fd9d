-- ===== src/Tcp/Frames/Stream.antt =====
-- A whole stream of messages, read in parts.
use mathlib.Core.Path.{subst}
use mathlib.Core.List.{append_assoc}
use c_ares.Base.{
  ◌⊎◌, inl, inr, false, length-zero, ℕ, ◌-◌, ◌≤◌, ◌≡◌, refl, sym, ◌∙◌, ap, arith, List, [], ◌∷◌,
  ◌++◌, length, drop, drop-nil, length-drop, All,
}
use c_ares.Result.{ok}
use c_ares.Tcp.{
  Handler, is_off, Connection, again, quiet, read_length, read_message, read_tcp_data, wanted,
}
use c_ares.Tcp.Frames.{
  frames, IsMessage, asked_for, is_lost, Closed, chunk, said, reads, IsOpen, Aligned, between, half,
  inside,
}
use c_ares.Tcp.Frames.Step.{Aligned-Reads}

All-behind : {A : Type 0} (P : A → Type 0) (xs ys : List A) → All P (xs ++ ys) → All P ys
All-behind P [] ys w = w
All-behind P (x ∷ xs) ys w = All-behind P xs ys w.1

-- A call that gets nothing changes nothing.
read_nothing :
    (handler : Handler) (s : Connection) → read_tcp_data handler again s [] ≡ ok ((s, quiet), [])
unfolding read_tcp_data read_length read_message
read_nothing handler s = ground arith

-- What a run of calls returns.
record Runs (handler : Handler) (s : Connection) (stream : List ℕ) (msgs : List (List ℕ))
    (ks : List ℕ) : Type 0 where
  next : Connection
  rest : List ℕ
  processed : List (List ℕ)
  left : List (List ℕ)
  run : reads handler ks stream s ≡ ok (next, rest, processed)
  aligned : Aligned next rest left
  order : msgs ≡ processed ++ left
  fate :
      (IsOpen next × (next.generation ≡ s.generation) × (length rest ≤ length stream - length ks))
      ⊎ Closed handler next rest processed left

-- Messages that were processed before come in front.
later-Closed :
    {handler : Handler} {s : Connection} {stream : List ℕ} {processed left : List (List ℕ)}
    (ms : List (List ℕ))
    → Closed handler s stream processed left
    → Closed handler s stream (ms ++ processed) left
later-Closed ms c = record {
  before = ms ++ c.before;
  message = c.message;
  server = c.server;
  last_one = ap (λ t. ms ++ t) c.last_one ∙ sym (append_assoc ms c.before (c.message ∷ []));
  was_open = c.was_open;
  closes = c.closes;
  closed = c.closed;
  empty = c.empty;
  behind = c.behind;
}

IsOpen-is_off : (s : Connection) → IsOpen s → is_off s ≡ false
IsOpen-is_off s w = ground (arith, w.opened, w.unbroken)

IsOpen-is_lost :
    (s next : Connection) → IsOpen next → next.generation ≡ s.generation → is_lost s next ≡ false
IsOpen-is_lost s next w e = ground (arith, w.opened, w.unbroken, e)

reads-Runs :
    (handler : Handler) (ks : List ℕ) (s : Connection) (stream : List ℕ) (msgs : List (List ℕ))
    → IsOpen s
    → All IsMessage msgs
    → Aligned s stream msgs
    → Runs handler s stream msgs ks
unfolding reads
reads-Runs handler [] s stream msgs w good at = record {
  next = s;
  rest = stream;
  processed = [];
  left = msgs;
  run = refl;
  aligned = at;
  order = refl;
  fate = inl (w, refl, omega arith);
}
reads-Runs handler (k ∷ ks) s [] msgs w good at =
    let r = reads-Runs handler ks s [] msgs w good at in
    record {
      next = r.next;
      rest = r.rest;
      processed = r.processed;
      left = r.left;
      run =
          rw (read_nothing handler s, IsOpen-is_lost s s w refl, drop-nil (asked_for k s), r.run)
            refl;
      aligned = r.aligned;
      order = r.order;
      fate = elim r.fate [
        | inl (still, same, shorter) ↦ inl (still, same, omega (arith, shorter))
        | inr closed ↦ inr closed
      ];
    }
reads-Runs handler (k ∷ ks) s (c ∷ cs) msgs w good at =
    let one = Aligned-Reads handler s c cs msgs k w good at in
    let n = chunk k (wanted s) in
    let on = IsOpen-is_off s w in
    elim one.fate [
      | inr (closed, lost) ↦ record {
        next = one.next;
        rest = drop n (c ∷ cs);
        processed = said one.event;
        left = one.left;
        run = rw (on, one.run, lost) refl;
        aligned = one.rest;
        order = one.order;
        fate = inr closed;
      }
      | inl (still, same) ↦
          let r =
            reads-Runs handler ks one.next (drop n (c ∷ cs)) one.left still
              (All-behind IsMessage (said one.event) one.left
                (subst (All IsMessage) one.order good))
              one.rest in
          record {
            next = r.next;
            rest = r.rest;
            processed = said one.event ++ r.processed;
            left = r.left;
            run = rw (on, one.run, IsOpen-is_lost s one.next still same, r.run) refl;
            aligned = r.aligned;
            order =
                one.order
                ∙ ap (λ t. said one.event ++ t) r.order
                ∙ sym (append_assoc (said one.event) r.processed r.left);
            fate = elim r.fate [
              | inl (open_still, same_one, shorter) ↦ inl (
                open_still,
                same_one ∙ same,
                omega (arith, shorter, length-drop n (c ∷ cs), one.some_read),
              )
              | inr closed ↦ inr (later-Closed (said one.event) closed)
            ];
          }
    ]

-- A stream that has come to its end, with a server that is aligned with it.
Aligned-end :
    (s : Connection) (msgs : List (List ℕ)) → Aligned s [] msgs → (msgs ≡ []) × (s.tcp_lenbuf ≡ [])
Aligned-end s [] (between e at) = (refl, e)
Aligned-end s (m ∷ ms) (between e at) = absurd (cc at)
Aligned-end s msgs (half m ms e at same) = absurd (cc at)
Aligned-end s msgs (inside a b text [] ms word buffer size some_left at same) =
    absurd (omega (arith, some_left))
Aligned-end s msgs (inside a b text (x ∷ xs) ms word buffer size some_left at same) = absurd (cc at)

-- For messages of 1 to 65535 bytes, a connection between two messages that is open and not broken,
-- with memory, whatever the processing of a message leaves of the connection, and any bounds on
-- what `recv` returns, as many as the stream has bytes at least: the calls of `read_tcp_data`, as
-- long as the connection lasts on which the stream comes, process the messages of the stream in
-- their order, each behind two bytes of its length, and there are two cases. They process all the
-- messages and read the whole stream, and the connection is the same, open, not broken and between
-- two messages again; or the last message processed is one whose processing closes, breaks or
-- replaces an open connection, and then nothing behind this message is read.
pub reads-frames :
    (handler : Handler) (msgs : List (List ℕ)) (ks : List ℕ) (s : Connection)
    → All IsMessage msgs
    → IsOpen s
    → s.tcp_lenbuf ≡ []
    → length (frames msgs) ≤ length ks
    → (s' : Connection) × (rest : List ℕ) × (processed : List (List ℕ)) × (left : List (List ℕ))
      × (reads handler ks (frames msgs) s ≡ ok (s', rest, processed))
      × (msgs ≡ processed ++ left)
      × (((left ≡ [])
            × (rest ≡ [])
            × (s'.tcp_lenbuf ≡ [])
            × IsOpen s'
            × (s'.generation ≡ s.generation))
          ⊎ Closed handler s' rest processed left)
reads-frames handler msgs ks s good w start enough =
    let r = reads-Runs handler ks s (frames msgs) msgs w good (between start refl) in
    (
      r.next,
      r.rest,
      r.processed,
      r.left,
      r.run,
      r.order,
      elim r.fate [
        | inr closed ↦ inr closed
        | inl (open_still, same, shorter) ↦
            let read_all : r.rest ≡ [] = length-zero r.rest (omega (arith, shorter)) in
            let (no_more, behind) =
              Aligned-end r.next r.left
                (subst (λ rest. Aligned r.next rest r.left) read_all r.aligned) in
            inl (no_more, read_all, behind, open_still, same)
      ],
    )
