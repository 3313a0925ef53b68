-- ===== src/Mux/Proxy/Invariant.antt =====
-- What holds of a forwarded call of larking/mux.go before and after each step.
use larking.Base.{
  ◌≤◌, Bool, true, false, Option, none, some, List, [], ◌∷◌, ◌++◌, ◌≡◌, refl, sym, ap, ◌∙◌, length,
  arith,
}
use mathlib.Core.Path.{subst}
use larking.Mux.Proxy.Forward.{
  Fault, is_stream_error, InPc, at_start, over, receiving, opening, sending_first, forwarding,
  in_done, OutPc, before, awaiting, replying, out_done, returned, Call, Streaming, started,
  after_reply, Step, first, first_fails, opens, open_fails, first_sent, first_lost, in_recv,
  in_recv_fails, in_send, in_send_fails, out_recv, out_recv_fails, out_send, out_send_fails,
  returns_error, returns_in_error, returns_joined, returns_alone,
}

-- All but at most the last, whose sending is under way or has failed.
pub data Passes {A : Type 0} (all sent : List A) : Type 0 where
  passes_all : all ≡ sent → Passes all sent
  one_left : (a : A) → all ≡ sent ++ a ∷ [] → Passes all sent

-- What was received and what was passed on, at each place.
abbrev pub InOk : {Msg : Type 0} → InPc Msg → List Msg → List Msg → Type 0
InOk at_start got passed = (got ≡ []) × (passed ≡ [])
InOk (opening m) got passed = got ≡ passed ++ m ∷ []
InOk (sending_first m) got passed = got ≡ passed ++ m ∷ []
InOk receiving got passed = got ≡ passed
InOk (forwarding m) got passed = got ≡ passed ++ m ∷ []
InOk over got passed = Passes got passed
InOk (in_done e) got passed = Passes got passed

-- The same of the replies; a server that does not stream gives one at most.
abbrev pub OutOk : {Reply : Type 0} → Bool → OutPc Reply → List Reply → List Reply → Type 0
OutOk server before came answered = (came ≡ []) × (answered ≡ [])
OutOk server awaiting came answered = (came ≡ answered) × (server ≡ false → answered ≡ [])
OutOk server (replying r) came answered =
    (came ≡ answered ++ r ∷ []) × (server ≡ false → answered ≡ [])
OutOk server (out_done o) came answered = Passes came answered × (server ≡ false → length came ≤ 1)
OutOk server (returned o) came answered = Passes came answered × (server ≡ false → length came ≤ 1)

-- No goroutine is left that could still receive or send, and the one that was met no error.
abbrev pub IsQuiet : {Msg : Type 0} → InPc Msg → Type 0
IsQuiet receiving = ⊥
IsQuiet (forwarding m) = ⊥
IsQuiet (in_done e) = is_stream_error (some e) ≡ false
IsQuiet _ = Unit

abbrev pub NoLoop : {Msg : Type 0} → InPc Msg → Type 0
NoLoop receiving = ⊥
NoLoop (forwarding m) = ⊥
NoLoop (in_done e) = ⊥
NoLoop _ = Unit

-- The trailer is set where the handler returns no error, and nowhere else.
abbrev pub EndOk : {Msg Reply : Type 0} → OutPc Reply → InPc Msg → Bool → Type 0
EndOk (returned none) i trailer = (trailer ≡ true) × IsQuiet i
EndOk (returned (some e)) i trailer = trailer ≡ false
EndOk _ i trailer = trailer ≡ false

pub record Inv {Msg Reply : Type 0} (d : Streaming) (s : Call Msg Reply) : Type 0 where
  pub in_ok : InOk s.in_pc s.got s.passed
  pub out_ok : OutOk d.server s.out_pc s.came s.answered
  pub end_ok : EndOk s.out_pc s.in_pc s.trailer
  pub alone : d.client ≡ false → NoLoop s.in_pc

EndOk-in :
    {Msg Reply : Type 0} (o : OutPc Reply) (i j : InPc Msg) (t : Bool)
    → (IsQuiet i → IsQuiet j)
    → EndOk o i t
    → EndOk o j t
EndOk-in before i j t h q = q
EndOk-in awaiting i j t h q = q
EndOk-in (replying r) i j t h q = q
EndOk-in (out_done e) i j t h q = q
EndOk-in (returned none) i j t h (q, k) = (q, h k)
EndOk-in (returned (some e)) i j t h q = q

NoLoop-IsQuiet : {Msg : Type 0} (i : InPc Msg) → NoLoop i → IsQuiet i
NoLoop-IsQuiet receiving h = elim h [ ]
NoLoop-IsQuiet (forwarding m) h = elim h [ ]
NoLoop-IsQuiet (in_done e) h = elim h [ ]
NoLoop-IsQuiet at_start h = tt
NoLoop-IsQuiet over h = tt
NoLoop-IsQuiet (opening m) h = tt
NoLoop-IsQuiet (sending_first m) h = tt

started-InOk :
    {Msg : Type 0} (b : Bool) (got passed : List Msg) → got ≡ passed → InOk (started b) got passed
started-InOk true got passed e = e
started-InOk false got passed e = passes_all e

started-NoLoop : (Msg : Type 0) (b : Bool) → b ≡ false → NoLoop {Msg = Msg} (started b)
started-NoLoop Msg true e = cc
started-NoLoop Msg false e = tt

-- A reply answered, of a server that streams or not.
after_reply-OutOk :
    {Reply : Type 0} (b : Bool) (r : Reply) (came answered : List Reply)
    → came ≡ answered ++ r ∷ []
    → (b ≡ false → answered ≡ [])
    → OutOk b (after_reply b) came (answered ++ r ∷ [])
after_reply-OutOk true r came answered e h = (e, (λ f. cc))
after_reply-OutOk false r came answered e h = (passes_all e, (λ f. rw (e, h refl) (omega arith)))

after_reply-EndOk :
    {Msg : Type 0} (Reply : Type 0) (b : Bool) (i : InPc Msg) (t : Bool)
    → t ≡ false
    → EndOk (after_reply {Reply = Reply} b) i t
after_reply-EndOk Reply true i t e = e
after_reply-EndOk Reply false i t e = e

pub one_reply :
    {Reply : Type 0} (r : Reply) (came answered : List Reply)
    → came ≡ answered ++ r ∷ []
    → answered ≡ []
    → length came ≤ 1
one_reply r came answered e h = rw (e, h) (omega arith)

returned-EndOk :
    {Msg : Type 0} (Reply : Type 0) (o : Option Fault) (i : InPc Msg) (t : Bool)
    → is_stream_error o ≡ true
    → t ≡ false
    → EndOk {Reply = Reply} (returned o) i t
returned-EndOk Reply none i t e h = cc
returned-EndOk Reply (some x) i t e h = h

module _ {Msg Reply : Type 0} {d : Streaming} {s : Call Msg Reply} (v : Inv d s) where
  in_at : (i : InPc Msg) → s.in_pc ≡ i → InOk i s.got s.passed
  in_at i e = subst (λ i'. InOk i' s.got s.passed) e v.in_ok

  out_at : (o : OutPc Reply) → s.out_pc ≡ o → OutOk d.server o s.came s.answered
  out_at o e = subst (λ o'. OutOk d.server o' s.came s.answered) e v.out_ok

  pub end_at : (o : OutPc Reply) → s.out_pc ≡ o → EndOk o s.in_pc s.trailer
  end_at o e = subst (λ o'. EndOk o' s.in_pc s.trailer) e v.end_ok

  quiet_at : (i j : InPc Msg) → s.in_pc ≡ i → (IsQuiet i → IsQuiet j) → EndOk s.out_pc j s.trailer
  quiet_at i j e h =
      EndOk-in s.out_pc i j s.trailer h (subst (λ i'. EndOk s.out_pc i' s.trailer) e v.end_ok)

  alone_at : (i : InPc Msg) → s.in_pc ≡ i → d.client ≡ false → NoLoop i
  alone_at i e h = subst (λ i'. NoLoop i') e (v.alone h)

  -- The end of a call before its first message is passed on.
  fails_first :
      (e : Fault)
      → s.out_pc ≡ before
      → Passes s.got s.passed
      → Inv d (record s { in_pc = over; out_pc = returned (some e) })
  fails_first e o h =
      let (a, b) = out_at before o in
      record {
        in_ok = h;
        out_ok = (passes_all (a ∙ sym b), (λ f. rw a (omega arith)));
        end_ok = end_at before o;
        alone = λ f. tt;
      }

-- Every step keeps the invariant.
pub Step-Inv :
    {Msg Reply : Type 0} {d : Streaming} {s t : Call Msg Reply} → Step d s t → Inv d s → Inv d t
Step-Inv (first m i o) v =
    let (a, b) = in_at v at_start i in
    record {
      in_ok = ap (λ l. l ++ m ∷ []) (a ∙ sym b);
      out_ok = v.out_ok;
      end_ok = quiet_at v at_start (opening m) i (λ q. tt);
      alone = λ f. tt;
    }
Step-Inv (first_fails e i o) v =
    let (a, b) = in_at v at_start i in fails_first v e o (passes_all (a ∙ sym b))
Step-Inv (opens m i o) v = record {
  in_ok = in_at v (opening m) i;
  out_ok = v.out_ok;
  end_ok = quiet_at v (opening m) (sending_first m) i (λ q. tt);
  alone = λ f. tt;
}
Step-Inv (open_fails m e i o) v = fails_first v e o (one_left m (in_at v (opening m) i))
Step-Inv {Msg} {d} {s} (first_sent m i o) v =
    let (a, b) = out_at v before o in
    record {
      in_ok = started-InOk d.client s.got (s.passed ++ m ∷ []) (in_at v (sending_first m) i);
      out_ok = (a ∙ sym b, (λ f. b));
      end_ok = end_at v before o;
      alone = started-NoLoop Msg d.client;
    }
Step-Inv (first_lost m e i o) v = fails_first v e o (one_left m (in_at v (sending_first m) i))
Step-Inv (in_recv m i) v = record {
  in_ok = ap (λ l. l ++ m ∷ []) (in_at v receiving i);
  out_ok = v.out_ok;
  end_ok = quiet_at v receiving (forwarding m) i (λ q. q);
  alone = alone_at v receiving i;
}
Step-Inv (in_recv_fails e i) v = record {
  in_ok = passes_all (in_at v receiving i);
  out_ok = v.out_ok;
  end_ok = quiet_at v receiving (in_done e) i (λ q. elim q [ ]);
  alone = alone_at v receiving i;
}
Step-Inv (in_send m i) v = record {
  in_ok = in_at v (forwarding m) i;
  out_ok = v.out_ok;
  end_ok = quiet_at v (forwarding m) receiving i (λ q. q);
  alone = alone_at v (forwarding m) i;
}
Step-Inv (in_send_fails m e i) v = record {
  in_ok = one_left m (in_at v (forwarding m) i);
  out_ok = v.out_ok;
  end_ok = quiet_at v (forwarding m) (in_done e) i (λ q. elim q [ ]);
  alone = alone_at v (forwarding m) i;
}
Step-Inv (out_recv r o) v =
    let (a, b) = out_at v awaiting o in
    record {
      in_ok = v.in_ok;
      out_ok = (ap (λ l. l ++ r ∷ []) a, b);
      end_ok = end_at v awaiting o;
      alone = v.alone;
    }
Step-Inv {d} {s} (out_recv_fails e o) v =
    let (a, b) = out_at v awaiting o in
    record {
      in_ok = v.in_ok;
      out_ok = (passes_all a, (λ f. rw (a, b f) (omega arith)));
      end_ok = end_at v awaiting o;
      alone = v.alone;
    }
Step-Inv {Reply} {d} {s} (out_send r o) v =
    let (a, b) = out_at v (replying r) o in
    record {
      in_ok = v.in_ok;
      out_ok = after_reply-OutOk d.server r s.came s.answered a b;
      end_ok = after_reply-EndOk Reply d.server s.in_pc s.trailer (end_at v (replying r) o);
      alone = v.alone;
    }
Step-Inv {d} {s} (out_send_fails r e o) v =
    let (a, b) = out_at v (replying r) o in
    record {
      in_ok = v.in_ok;
      out_ok = (one_left r a, (λ f. one_reply r s.came s.answered a (b f)));
      end_ok = end_at v (replying r) o;
      alone = v.alone;
    }
Step-Inv {Reply} {s} (returns_error x o bad) v = record {
  in_ok = v.in_ok;
  out_ok = out_at v (out_done x) o;
  end_ok = returned-EndOk Reply x s.in_pc s.trailer bad (end_at v (out_done x) o);
  alone = v.alone;
}
Step-Inv (returns_in_error x e o fine c i bad) v = record {
  in_ok = v.in_ok;
  out_ok = out_at v (out_done x) o;
  end_ok = end_at v (out_done x) o;
  alone = v.alone;
}
Step-Inv (returns_joined x e o fine c i good) v = record {
  in_ok = v.in_ok;
  out_ok = out_at v (out_done x) o;
  end_ok = (refl, subst (λ i'. IsQuiet i') (sym i) good);
  alone = v.alone;
}
Step-Inv {s} (returns_alone x o fine c) v = record {
  in_ok = v.in_ok;
  out_ok = out_at v (out_done x) o;
  end_ok = (refl, NoLoop-IsQuiet s.in_pc (v.alone c));
  alone = v.alone;
}
