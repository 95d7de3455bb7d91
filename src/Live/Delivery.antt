-- ===== src/Live/Delivery.antt =====
-- What a client of the live stream is sent: messages of the stream in their order, and the latest one
-- whenever the service lets it write.
use cyrenus.Live.Order.{
  IsServed, IsOrdered, IsServed-broadcast, IsServed-new, IsServed-write, Sublist-older,
}
use mathlib.Core.Path.{subst}
use cyrenus.Live.{
  server_writeable, set_client, with_written, ws_broadcast_message, established, ws_server_round,
  boot,
}
use cyrenus.Live.Steps.{start, polls, writes, connects, broadcast, Run, latest, Sublist}
use cyrenus.Live.{cut, Client, Server, write_client}
use cyrenus.Prelude.{
  some-injective, false, ◌∙◌, true, ◌==◌, Bool, take, Option, none, refl, some, sym, inr, inl, ltb,
  zero, ◌∷◌, ◌-◌, ◌∷◌, ap, [], if◌then◌else◌, Bool-cases, length, ◌≤◌, ◌≡◌, suc, List, Text, ℕ,
  arith,
}

if-eq {ℓ} :
    {A : Type ℓ} (b : Bool) (x y : A) (c : Bool)
    → b ≡ c
    → (if b then x else y) ≡ (if c then x else y)
if-eq b x y c e = ap (λ b'. if b' then x else y) e

take-take : (n : ℕ) (text : Text) → take n (take n text) ≡ take n text
unfolding take
take-take zero text = refl
take-take (suc n) [] = refl
take-take (suc n) (t ∷ ts) = ap (λ ts'. t ∷ ts') (take-take n ts)

-- A change of one client keeps the rest.
set_client-IsServed :
    (history : List Text) (clients : ℕ → Option Client) (c : ℕ) (new : Client)
    → IsServed history new
    → ((d : ℕ) (client : Client) → clients d ≡ some client → IsServed history client)
    → (d : ℕ) (client : Client) → set_client clients c new d ≡ some client
    → IsServed history client
set_client-IsServed history clients c new h k d client e = elim (Bool-cases (c == d)) [
  | inl t ↦
      subst (IsServed history)
        (some-injective new client (sym (if-eq (c == d) (some new) (clients d) true t) ∙ e)) h
  | inr t ↦ k d client (sym (if-eq (c == d) (some new) (clients d) false t) ∙ e)
]

boot-IsOrdered : IsOrdered [] boot
unfolding take
boot-IsOrdered = record {
  count = refl;
  message = refl;
  fits = refl;
  served = λ c client e. absurd (cc);
}

broadcast-IsOrdered :
    (history : List Text) (s : Server) (msg : Text)
    → IsOrdered history s
    → IsOrdered (cut msg ∷ history) (ws_broadcast_message s msg)
unfolding ws_broadcast_message
broadcast-IsOrdered history s msg o = record {
  count = omega (arith, o.count);
  message = refl;
  fits = take-take 4095 msg;
  served = λ c client e. IsServed-broadcast (cut msg) history client (o.served c client e);
}

connects-IsOrdered :
    (history : List Text) (s : Server) (c : ℕ)
    → IsOrdered history s
    → IsOrdered history (established s c)
unfolding established
connects-IsOrdered history s c o = record {
  count = o.count;
  message = o.message;
  fits = o.fits;
  served =
      set_client-IsServed history s.clients c _ (IsServed-new history s.current_msg_id (o.count))
        (o.served);
}

with_written-IsOrdered :
    (history : List Text) (s : Server) (c : ℕ) (found : Option Client)
    → s.clients c ≡ found
    → IsOrdered history s
    → IsOrdered history (with_written s c found)
with_written-IsOrdered history s c none e o = o
with_written-IsOrdered history s c (some client) e o = record {
  count = o.count;
  message = o.message;
  fits = o.fits;
  served =
      set_client-IsServed history s.clients c _
        (IsServed-write history s client o (o.served c client e)) (o.served);
}

polls-IsOrdered :
    (history : List Text) (s : Server)
    → IsOrdered history s
    → IsOrdered history (ws_server_round s).1
unfolding ws_server_round
polls-IsOrdered history s o = elim (Bool-cases (ltb s.server_last_msg_id s.current_msg_id)) [
  | inl e ↦ rw e (record { count = o.count; message = o.message; fits = o.fits; served = o.served })
  | inr e ↦ rw e o
]

run-IsOrdered : (history : List Text) (s : Server) → Run history s → IsOrdered history s
unfolding server_writeable
run-IsOrdered history s start = boot-IsOrdered
run-IsOrdered history s (broadcast {history = history'} {s = s'} run msg) =
    broadcast-IsOrdered history' s' msg (run-IsOrdered history' s' run)
run-IsOrdered history s (connects {history = history'} {s = s'} run c) =
    connects-IsOrdered history s' c (run-IsOrdered history s' run)
run-IsOrdered history s (writes {history = history'} {s = s'} run c) =
    with_written-IsOrdered history s' c _ refl (run-IsOrdered history s' run)
run-IsOrdered history s (polls {history = history'} {s = s'} run) =
    polls-IsOrdered history s' (run-IsOrdered history s' run)

-- In every state that the stream reaches, a client was sent messages of the stream only, each at
-- most once and in the order of their broadcasts, and it has seen no version that is still to come.
pub run-delivers :
    (history : List Text) (s : Server) (c : ℕ) (client : Client)
    → Run history s
    → s.clients c ≡ some client
    → Sublist client.written history × (client.last_msg_id ≤ s.current_msg_id)
run-delivers history s c client run e =
    let o = run-IsOrdered history s run in
    let h = o.served c client e in
    (
      Sublist-older (length history - client.last_msg_id) client.written history (h.in_order),
      omega (arith, h.version, o.count),
    )

not_behind :
    (version current n : ℕ)
    → version ≤ n
    → current ≡ n
    → ltb version current ≡ false
    → version ≡ current
not_behind version current n h k l = ground arith

-- When the service lets a client write, it gets the latest message of the stream, if it has not
-- seen it, and nothing if it has; and then it has seen the current version.
pub run-catches_up :
    (history : List Text) (s : Server) (c : ℕ) (client : Client)
    → Run history s
    → s.clients c ≡ some client
    → let after = write_client s client in
      (after.last_msg_id ≡ s.current_msg_id)
      × (after.written ≡ (
          if ltb client.last_msg_id s.current_msg_id
          then latest history ∷ client.written
          else client.written))
unfolding write_client
run-catches_up history s c client run e =
    let o = run-IsOrdered history s run in
    let h = o.served c client e in
    elim (Bool-cases (ltb client.last_msg_id s.current_msg_id)) [
      | inl l ↦ rw l (refl, ap (λ m. m ∷ client.written) (o.fits ∙ o.message))
      | inr l ↦ rw l (
        not_behind client.last_msg_id s.current_msg_id (length history) (h.version) (o.count) l,
        refl,
      )
    ]
