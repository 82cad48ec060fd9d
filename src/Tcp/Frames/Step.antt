-- ===== src/Tcp/Frames/Step.antt =====
-- One call of `read_tcp_data` on a stream of messages.
use mathlib.Core.List.{append_assoc}
use c_ares.Base.{
  ◌⊎◌, ℕ, zero, suc, ◌+◌, ◌-◌, ◌*◌, ◌/◌, ◌%◌, ◌≤◌, ◌≡◌, ◌<◌, refl, sym, ◌∙◌, ap, arith, Bool-cases,
  inl, inr, true, false, List, [], ◌∷◌, ◌++◌, none, some, length, length-append, take, drop,
  drop-append, drop-past, take-append, take-all, take-drop, length-take, length-drop, leb, ◌==◌,
  if◌then◌else◌, All,
}
use c_ares.Result.{ok}
use c_ares.Cmd.{Buffer, malloc, pure}
use c_ares.Wire.Copy.{puts-ok}
use c_ares.Tcp.{
  Handler, Connection, Received, got, Event, quiet, answered, start_message, read_length,
  message_part, append_message, read_message, read_tcp_data, wanted,
}
use c_ares.Tcp.Frames.{
  frames, IsMessage, chunk, said, IsOpen, Aligned, between, half, inside, Closed, is_lost, Reads,
}

is_lost-IsOpen :
    (s next : Connection) → is_lost s next ≡ false → IsOpen next × (next.generation ≡ s.generation)
is_lost-IsOpen s next e = (record { opened = ground arith; unbroken = ground arith }, ground arith)

module _ (handler : Handler) (s : Connection) where
  start_message-ok :
      (a b : ℕ)
      → s.tcp_lenbuf ≡ a ∷ b ∷ []
      → start_message s []
        ≡ ok (
          (
            record s {
              tcp_length = a * 256 + b;
              tcp_buffer = some (record { room = a * 256 + b; text = [] });
            },
            quiet,
          ),
          [],
        )
  unfolding start_message malloc
  start_message-ok a b e = rw e refl

  -- bytes of the length word
  read_length-ok :
      (c : ℕ) (cs : List ℕ)
      → length s.tcp_lenbuf + length (c ∷ cs) ≤ 2
      → read_length (got (c ∷ cs)) s [] ≡ (
          let s' = record s { tcp_lenbuf = s.tcp_lenbuf ++ (c ∷ cs) } in
          (if length (s.tcp_lenbuf ++ (c ∷ cs)) == 2 then start_message s' else pure (s', quiet))
            [])
  unfolding read_length
  read_length-ok c cs fits =
      let block : Buffer = record { room = 2 - length s.tcp_lenbuf; text = s.tcp_lenbuf } in
      rw (puts-ok (c ∷ cs) block (2 - length s.tcp_lenbuf - length (c ∷ cs)) (omega arith)) refl

  append_message-ok :
      (block : Buffer) (bytes : List ℕ) (r : ℕ)
      → block.room ≡ length bytes + r
      → append_message handler (some block) bytes s []
        ≡ message_part handler s (record { room = r; text = block.text ++ bytes }) []
  unfolding append_message
  append_message-ok block bytes r h = rw (puts-ok bytes block r h) refl

  module _ (w : IsOpen s) where
    reading-length :
        (r : Received)
        → (length s.tcp_lenbuf == 2) ≡ false
        → read_tcp_data handler r s [] ≡ read_length r s []
    unfolding read_tcp_data
    reading-length r h = rw (w.opened, w.unbroken, h) refl

    reading-message :
        (r : Received)
        → (length s.tcp_lenbuf == 2) ≡ true
        → read_tcp_data handler r s [] ≡ read_message handler r s []
    unfolding read_tcp_data
    reading-message r h = rw (w.opened, w.unbroken, h) refl

module _ {handler : Handler} {s : Connection} {stream : List ℕ} {msgs : List (List ℕ)} {k : ℕ} where
  -- a call that gets the first `n` bytes
  reads_by :
      (c : ℕ) (cs : List ℕ) (n : ℕ)
      → stream ≡ c ∷ cs
      → chunk k (wanted s) ≡ n
      → 0 < n
      → (next : Connection) (event : Event) (left : List (List ℕ))
      → read_tcp_data handler (got (take n (c ∷ cs))) s [] ≡ ok ((next, event), [])
      → Aligned next (drop n (c ∷ cs)) left
      → msgs ≡ said event ++ left
      → ((IsOpen next × (next.generation ≡ s.generation))
          ⊎ (Closed handler next (drop n (c ∷ cs)) (said event) left × (is_lost s next ≡ true)))
      → Reads handler s stream msgs k
  reads_by c cs n e size positive next event left run rest order outcome = record {
    next = next;
    event = event;
    left = left;
    run = rw (e, size) run;
    rest = rw (e, size) rest;
    order = order;
    fate = rw (e, size) outcome;
    some_read = rw size positive;
  }

module _ (handler : Handler) (s : Connection) (w : IsOpen s) where
  -- the two bytes of a length word
  between-Reads :
      (k : ℕ) (stream m : List ℕ) (ms : List (List ℕ))
      → IsMessage m
      → s.tcp_lenbuf ≡ []
      → stream ≡ frames (m ∷ ms)
      → Reads handler s stream (m ∷ ms) k
  between-Reads zero stream m ms good e at =
      let hi : ℕ = length m / 256 % 256 in
      reads_by hi (length m % 256 ∷ (m ++ frames ms)) 1 at (rw e refl) (omega arith)
        (record s { tcp_lenbuf = hi ∷ [] }) quiet (m ∷ ms)
        (reading-length handler s w (got (hi ∷ [])) (rw e refl)
          ∙ read_length-ok handler s hi [] (rw e (omega arith))
          ∙ rw e refl)
        (half m ms refl refl refl) refl
        (inl (record { opened = w.opened; unbroken = w.unbroken }, refl))
  between-Reads (suc k) stream m ms good e at =
      let hi : ℕ = length m / 256 % 256 in
      let lo : ℕ = length m % 256 in
      let s' : Connection = record s { tcp_lenbuf = hi ∷ lo ∷ [] } in
      let size : hi * 256 + lo ≡ length m = omega (arith, good.1) in
      reads_by hi (lo ∷ (m ++ frames ms)) 2 at (rw e (ground arith)) (omega arith)
        (record s' {
          tcp_length = hi * 256 + lo;
          tcp_buffer = some (record { room = hi * 256 + lo; text = [] });
        })
        quiet (m ∷ ms)
        (reading-length handler s w (got (hi ∷ lo ∷ [])) (rw e refl)
          ∙ read_length-ok handler s hi (lo ∷ []) (rw e (omega arith))
          ∙ rw e (start_message-ok handler s' hi lo refl))
        (inside hi lo [] m ms refl (ap (λ r. some (record { room = r; text = [] })) size)
          (omega (arith, size)) good.0 refl refl)
        refl (inl (record { opened = w.opened; unbroken = w.unbroken }, refl))

  half-Reads :
      (k : ℕ) (stream m : List ℕ) (ms : List (List ℕ))
      → IsMessage m
      → s.tcp_lenbuf ≡ length m / 256 % 256 ∷ []
      → stream ≡ length m % 256 ∷ (m ++ frames ms)
      → Reads handler s stream (m ∷ ms) k
  half-Reads k stream m ms good e at =
      let hi : ℕ = length m / 256 % 256 in
      let lo : ℕ = length m % 256 in
      let s' : Connection = record s { tcp_lenbuf = hi ∷ lo ∷ [] } in
      let size : hi * 256 + lo ≡ length m = omega (arith, good.1) in
      reads_by lo (m ++ frames ms) 1 at (rw e (ground arith)) (omega arith)
        (record s' {
          tcp_length = hi * 256 + lo;
          tcp_buffer = some (record { room = hi * 256 + lo; text = [] });
        })
        quiet (m ∷ ms)
        (reading-length handler s w (got (lo ∷ [])) (rw e refl)
          ∙ read_length-ok handler s lo [] (rw e (omega arith))
          ∙ rw e (start_message-ok handler s' hi lo refl))
        (inside hi lo [] m ms refl (ap (λ r. some (record { room = r; text = [] })) size)
          (omega (arith, size)) good.0 refl refl)
        refl (inl (record { opened = w.opened; unbroken = w.unbroken }, refl))

  module _ (a b : ℕ) (text : List ℕ) (x : ℕ) (xs : List ℕ) (ms : List (List ℕ))
      (word : s.tcp_lenbuf ≡ a ∷ b ∷ [])
      (buffer : s.tcp_buffer ≡ some (record { room = suc (length xs); text = text }))
      (size : s.tcp_length ≡ length text + suc (length xs)) where
    -- some bytes of a message, as the buffer takes them
    read_message-part :
        (bytes : List ℕ) (r : ℕ)
        → suc (length xs) ≡ suc (length bytes) + r
        → read_tcp_data handler (got (x ∷ bytes)) s []
          ≡ message_part handler s (record { room = r; text = text ++ x ∷ bytes }) []
    unfolding read_message
    read_message-part bytes r h =
        reading-message handler s w (got (x ∷ bytes)) (rw word refl)
        ∙ ap (λ block. append_message handler block (x ∷ bytes) s []) buffer
        ∙ append_message-ok handler s (record { room = suc (length xs); text = text }) (x ∷ bytes) r
            h

    wanted-inside : wanted s ≡ suc (length xs)
    wanted-inside = rw (word, buffer, size) (omega arith)

    whole-Reads :
        (k : ℕ) (stream : List ℕ)
        → stream ≡ x ∷ (xs ++ frames ms)
        → chunk k (wanted s) ≡ suc (length xs)
        → Reads handler s stream ((text ++ x ∷ xs) ∷ ms) k
    whole-Reads k stream at all_of_it =
        let bytes : take (length xs) (xs ++ frames ms) ≡ xs =
          take-append (length xs) xs (frames ms) (omega arith) ∙ take-all xs in
        let none_left : length xs - length xs ≡ 0 = omega arith in
        let full : (length (text ++ x ∷ xs) == s.tcp_length) ≡ true =
          ground (arith, size, length-append text (x ∷ xs)) in
        let message : List ℕ = text ++ x ∷ xs in
        let before : Connection = record s {
          tcp_buffer = some (record { room = 0; text = message });
        } in
        let next : Connection = record (handler message before) {
          tcp_lenbuf = [];
          tcp_buffer = none;
        } in
        let behind : drop (length xs) (xs ++ frames ms) ≡ frames ms =
          drop-past (length xs) xs (frames ms) (omega arith)
          ∙ ap (λ n. drop n (frames ms)) none_left in
        reads_by x (xs ++ frames ms) (suc (length xs)) at all_of_it (omega arith) next
          (answered message) ms (rw bytes (read_message-part xs 0 (omega arith) ∙ rw full refl))
          (between refl behind) refl
          (elim (Bool-cases (is_lost s next)) [
            | inl off ↦ inr (
              record {
                before = [];
                message = message;
                server = before;
                last_one = refl;
                was_open = record { opened = w.opened; unbroken = w.unbroken };
                closes = off;
                closed = off;
                empty = refl;
                behind = behind;
              },
              off,
            )
            | inr on ↦ inl (is_lost-IsOpen s next on)
          ])

    part-Reads :
        (k n : ℕ) (stream : List ℕ)
        → stream ≡ x ∷ (xs ++ frames ms)
        → chunk k (wanted s) ≡ suc n
        → n < length xs
        → Reads handler s stream ((text ++ x ∷ xs) ∷ ms) k
    part-Reads k n stream at some_of_it less =
        let bytes : List ℕ = take n xs in
        let taken : take n (xs ++ frames ms) ≡ bytes = take-append n xs (frames ms) (omega arith) in
        let count : length bytes ≡ n = length-take n xs (omega arith) in
        let left : List ℕ = drop n xs in
        let rest : length left ≡ length xs - n = length-drop n xs in
        let open_still : (length (text ++ x ∷ bytes) == s.tcp_length) ≡ false =
          ground (arith, size, length-append text (x ∷ bytes), count) in
        reads_by x (xs ++ frames ms) (suc n) at some_of_it (omega arith)
          (record s { tcp_buffer = some (record { room = length left; text = text ++ x ∷ bytes }) })
          quiet ((text ++ x ∷ xs) ∷ ms)
          (rw taken (
            read_message-part bytes (length left) (omega (arith, count, rest))
            ∙ rw open_still refl))
          (inside a b (text ++ x ∷ bytes) left ms word refl
            (omega (arith, size, length-append text (x ∷ bytes), count, rest)) (omega (arith, rest))
            (drop-append n xs (frames ms) (omega arith))
            (ap (λ t. (text ++ x ∷ t) ∷ ms) (sym (take-drop n xs))
              ∙ ap (λ t. t ∷ ms) (sym (append_assoc text (x ∷ bytes) left))))
          refl (inl (record { opened = w.opened; unbroken = w.unbroken }, refl))

-- One call on a stream that is not empty.
pub Aligned-Reads :
    (handler : Handler) (s : Connection) (c : ℕ) (cs : List ℕ) (msgs : List (List ℕ)) (k : ℕ)
    → IsOpen s
    → All IsMessage msgs
    → Aligned s (c ∷ cs) msgs
    → Reads handler s (c ∷ cs) msgs k
Aligned-Reads handler s c cs [] k w good (between e at) = absurd (cc at)
Aligned-Reads handler s c cs (m ∷ ms) k w good (between e at) =
    between-Reads handler s w k (c ∷ cs) m ms good.0 e at
Aligned-Reads handler s c cs msgs k w good (half m ms e at same) =
    rw same (half-Reads handler s w k (c ∷ cs) m ms (rw same at good).0 e at)
Aligned-Reads handler s c cs msgs k w good
      (inside a b text [] ms word buffer size some_left at same) =
    absurd (omega (arith, some_left))
Aligned-Reads handler s c cs msgs k w good
      (inside a b text (x ∷ xs) ms word buffer size some_left at same) =
    let want = wanted-inside handler s w a b text x xs ms word buffer size in
    rw same (elim (Bool-cases (leb (suc (length xs)) (k + 1))) [
      | inl all_of_it ↦
          whole-Reads handler s w a b text x xs ms word buffer size k (c ∷ cs) at
            (rw want (ground (arith, all_of_it)))
      | inr some_of_it ↦
          part-Reads handler s w a b text x xs ms word buffer size k k (c ∷ cs) at
            (rw want (ground (arith, some_of_it))) (ground (arith, some_of_it))
    ])
