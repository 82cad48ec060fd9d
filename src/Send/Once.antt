-- ===== src/Send/Once.antt =====
-- One attempt to send a query to a server.

use c_ares.Base.{
  ℕ, ◌<◌, ◌≡◌, refl, ◌∙◌, arith, Bool, true, false, List, length, length-set, get_elem?-some, ltb,
  if◌then◌else◌,
}
use c_ares.Result.{enomem, ok, ◌>>=◌}
use c_ares.Result.Ensures.{Ensures, returns, Ensures-bind, Ensures-if}
use c_ares.Cmd.Put.{NoStatus}
use c_ares.Time.{Timeval}
use c_ares.Send.{
  Server, Options, State, Sent, pending, ended, first_answer, called, at, skip_server, opened_tcp,
  connect_tcp, bind_udp, opened_udp, noted, queue_tcp, wait_for_answer, Attempt, retry, done,
  send_tcp, send_udp, send_once,
}

-- The query has an entry for each of the `n` servers, and its server is one of them.
pub record IsState (n : ℕ) (st : State) : Type 0 where
  pub count : length st.servers ≡ n
  pub infos : length st.query.server_info ≡ n
  pub inside : st.query.server < n

-- the query of `st'` has the tries and the error of that of `st`
pub record Same (n : ℕ) (st st' : State) : Type 0 where
  pub valid : IsState n st'
  pub tries : st'.query.try_count ≡ st.query.try_count
  pub error : st'.query.error_status ≡ st.query.error_status

pub at-Ensures :
    {A : Type 0} (xs : List A) (i : ℕ) → i < length xs → Ensures NoStatus (λ _. Unit {0}) (at xs i)
at-Ensures xs i h = let (x, e) = get_elem?-some xs i h in rw (e, at) (returns tt)

called-Same : (n : ℕ) (st : State) → IsState n st → Same n st (called st).1
called-Same n st v = record {
  valid = record { count = v.count; infos = v.infos; inside = v.inside };
  tries = refl;
  error = refl;
}

Same-trans : (n : ℕ) (a b c : State) → Same n a b → Same n b c → Same n a c
Same-trans n a b c p q = record {
  valid = q.valid;
  tries = q.tries ∙ p.tries;
  error = q.error ∙ p.error;
}

skip_server-Same :
    (n : ℕ) (st : State) (i : ℕ)
    → IsState n st
    → i < n
    → Ensures NoStatus (Same n st) (skip_server st i)
unfolding skip_server
skip_server-Same n st i v h =
    Ensures-if (ltb 1 (length st.servers))
      (λ _. Ensures-bind (at-Ensures st.query.server_info i (omega (arith, v.infos))) λ info _.
        returns (record {
          valid = record {
            count = v.count;
            infos = length-set st.query.server_info i _ ∙ v.infos;
            inside = v.inside;
          };
          tries = refl;
          error = refl;
        }))
      (λ _. returns (record { valid = v; tries = refl; error = refl }))

-- how an attempt may go on
abbrev pub Sends : ℕ → State → Sent → Type 0
Sends n st (pending st') = Same n st st'
Sends n st (ended s st') = s ≡ enomem

abbrev pub Attempts : ℕ → State → Attempt → Type 0
Attempts n st (retry st') = Same n st st'
Attempts n st (done sent) = Sends n st sent

Sends-trans : (n : ℕ) (a b : State) (sent : Sent) → Same n a b → Sends n b sent → Sends n a sent
Sends-trans n a b (pending c) p q = Same-trans n a b c p q
Sends-trans n a b (ended s c) p q = q

Sends-if :
    (n : ℕ) (st : State) (b : Bool) (x y : Sent)
    → Sends n st x
    → Sends n st y
    → Sends n st (if b then x else y)
Sends-if n st true x y p q = p
Sends-if n st false x y p q = q

wait_for_answer-Sends :
    (opts : Options) (now : Timeval) (n : ℕ) (st : State)
    → IsState n st
    → Sends n st (wait_for_answer opts now st)
unfolding wait_for_answer
wait_for_answer-Sends opts now n st v =
    Sends-if n st (first_answer st.answers) _ _
      (record {
        valid = record { count = v.count; infos = v.infos; inside = v.inside };
        tries = refl;
        error = refl;
      })
      refl

-- an attempt in a state that agrees with an earlier one
later : (n : ℕ) (a b : State) (x : Attempt) → Same n a b → Attempts n b x → Attempts n a x
later n a b (retry c) p q = Same-trans n a b c p q
later n a b (done sent) p q = Sends-trans n a b sent p q

skip-Attempts :
    (n : ℕ) (a b : State)
    → Same n a b
    → Ensures NoStatus (Attempts n a) (skip_server b b.query.server >>= λ c. ok (retry c))
skip-Attempts n a b p =
    Ensures-bind (skip_server-Same n b b.query.server p.valid p.valid.inside)
      λ c q. returns (Same-trans n a b c p q)

opened_tcp-Same :
    (n : ℕ) (a b : State) (i : ℕ) (server : Server) → Same n a b → Same n a (opened_tcp b i server)
opened_tcp-Same n a b i server p = record {
  valid = record {
    count = length-set b.servers i _ ∙ p.valid.count;
    infos = p.valid.infos;
    inside = p.valid.inside;
  };
  tries = p.tries;
  error = p.error;
}

opened_udp-Same :
    (n : ℕ) (a b : State) (i : ℕ) (server : Server) → Same n a b → Same n a (opened_udp b i server)
opened_udp-Same n a b i server p = record {
  valid = record {
    count = length-set b.servers i _ ∙ p.valid.count;
    infos = p.valid.infos;
    inside = p.valid.inside;
  };
  tries = p.tries;
  error = p.error;
}

pub same : (n : ℕ) (st : State) → IsState n st → Same n st st
same n st v = record { valid = v; tries = refl; error = refl }

noted-Same : (n : ℕ) (a b : State) → Same n a b → Same n a (noted b)
noted-Same n a b p = record {
  valid = record { count = p.valid.count; infos = p.valid.infos; inside = p.valid.inside };
  tries = p.tries;
  error = p.error;
}

queue_tcp-Same : (n : ℕ) (a b : State) → Same n a b → Ensures NoStatus (Same n a) (queue_tcp b)
unfolding queue_tcp
queue_tcp-Same n a b p =
    Ensures-bind
      (at-Ensures b.servers b.query.server (omega (arith, p.valid.count, p.valid.inside)))
      λ server _.
        Ensures-bind
          (at-Ensures b.query.server_info b.query.server
            (omega (arith, p.valid.infos, p.valid.inside)))
          λ info _. returns (record {
            valid = record {
              count = p.valid.count;
              infos = length-set b.query.server_info b.query.server _ ∙ p.valid.infos;
              inside = p.valid.inside;
            };
            tries = p.tries;
            error = p.error;
          })

pair_if-Same :
    (n : ℕ) (st : State) (b : Bool) (x y : Bool × State)
    → Same n st x.1
    → Same n st y.1
    → Same n st (if b then x else y).1
pair_if-Same n st true x y p q = p
pair_if-Same n st false x y p q = q

connect_tcp-Same :
    (n : ℕ) (st : State) (server : Server) → IsState n st → Same n st (connect_tcp st server).1
unfolding connect_tcp
connect_tcp-Same n st server v = pair_if-Same n st server.tcp_open _ _ (same n st v) (
    pair_if-Same n st (first_answer st.answers) _ _
      (opened_tcp-Same n st (called st).1 st.query.server server (called-Same n st v))
      (called-Same n st v))

bind_udp-Same :
    (n : ℕ) (st : State) (server : Server) → IsState n st → Same n st (bind_udp st server).1
unfolding bind_udp
bind_udp-Same n st server v = pair_if-Same n st server.udp_open _ _ (same n st v) (
    pair_if-Same n st (first_answer st.answers) _ _
      (opened_udp-Same n st (called st).1 st.query.server server (called-Same n st v))
      (called-Same n st v))

called-later : (n : ℕ) (a b : State) → Same n a b → Same n a (called b).1
called-later n a b p = Same-trans n a b (called b).1 p (called-Same n b p.valid)

send_tcp-Attempts :
    (opts : Options) (now : Timeval) (n : ℕ) (st : State)
    → IsState n st
    → Ensures NoStatus (Attempts n st) (send_tcp opts now st)
unfolding send_tcp
send_tcp-Attempts opts now n st v =
    Ensures-bind (at-Ensures st.servers st.query.server (omega (arith, v.count, v.inside)))
      λ server _.
        let p = connect_tcp-Same n st server v in
        let st1 = (connect_tcp st server).1 in
        Ensures-if (connect_tcp st server).0
          (λ _.
            Ensures-if (first_answer st1.answers)
              (λ _.
                Ensures-bind (queue_tcp-Same n st (called st1).1 (called-later n st st1 p)) λ c q.
                  returns (Sends-trans n st c _ q (wait_for_answer-Sends opts now n c q.valid)))
              (λ _. returns refl))
          (λ _. skip-Attempts n st st1 p)

send_udp-Attempts :
    (opts : Options) (now : Timeval) (n : ℕ) (st : State)
    → IsState n st
    → Ensures NoStatus (Attempts n st) (send_udp opts now st)
unfolding send_udp
send_udp-Attempts opts now n st v =
    Ensures-bind (at-Ensures st.servers st.query.server (omega (arith, v.count, v.inside)))
      λ server _.
        let p = bind_udp-Same n st server v in
        let st1 = (bind_udp st server).1 in
        let p2 = called-later n st st1 p in
        let q = noted-Same n st (called st1).1 p2 in
        Ensures-if (bind_udp st server).0
          (λ _.
            Ensures-if (first_answer st1.answers)
              (λ _. returns (Sends-trans n st _ _ q (wait_for_answer-Sends opts now n _ q.valid)))
              (λ _. skip-Attempts n st (called st1).1 p2))
          (λ _. skip-Attempts n st st1 p)

pub send_once-Attempts :
    (opts : Options) (now : Timeval) (n : ℕ) (st : State)
    → IsState n st
    → Ensures NoStatus (Attempts n st) (send_once opts now st)
unfolding send_once
send_once-Attempts opts now n st v =
    Ensures-if st.query.using_tcp (λ _. send_tcp-Attempts opts now n st v)
      (λ _. send_udp-Attempts opts now n st v)
