-- ===== src/Live/Order.antt =====
-- The history that a client has seen of the live stream, and the invariant of the stream.
use cyrenus.Live.Steps.{latest, Sublist}
use cyrenus.Live.{cut, Client, Server, write_client}
use cyrenus.Prelude.{
  refl, some, sym, inr, inl, ltb, zero, ◌∷◌, ◌-◌, ◌∷◌, ap, [], ◌<◌, if◌then◌else◌, Bool-cases,
  length, ◌≤◌, ◌≡◌, suc, List, Text, ℕ, arith,
}

-- The history without its `n` latest messages.
unfoldable pub older : ℕ → List Text → List Text
older zero history = history
older (suc n) [] = []
older (suc n) (m ∷ history) = older n history

-- The messages up to a version.
abbrev pub up_to : List Text → ℕ → List Text
up_to history version = older (length history - version) history

Sublist-cons : (xs : List Text) (y : Text) (ys : List Text) → Sublist xs ys → Sublist xs (y ∷ ys)
Sublist-cons [] y ys h = tt
Sublist-cons (x ∷ xs) y ys h = inr h

pub Sublist-older :
    (n : ℕ) (xs history : List Text) → Sublist xs (older n history) → Sublist xs history
unfolding older
Sublist-older zero xs history h = h
Sublist-older (suc n) xs [] h = h
Sublist-older (suc n) xs (m ∷ history) h = Sublist-cons xs m history (Sublist-older n xs history h)

-- Invariant of one client.
pub record IsServed (history : List Text) (client : Client) : Type 0 where
  pub version : client.last_msg_id ≤ length history
  pub in_order : Sublist client.written (up_to history client.last_msg_id)

-- The invariant of the stream.
pub record IsOrdered (history : List Text) (s : Server) : Type 0 where
  pub count : s.current_msg_id ≡ length history
  pub message : s.broadcast_msg ≡ latest history
  pub fits : cut s.broadcast_msg ≡ s.broadcast_msg
  pub served : (c : ℕ) (client : Client) → s.clients c ≡ some client → IsServed history client

suc_minus : (n v : ℕ) → v ≤ n → suc n - v ≡ suc (n - v)
suc_minus n v h = omega arith

minus_self : (n : ℕ) → n - n ≡ 0
minus_self n = omega arith

up_to-cons :
    (m : Text) (history : List Text) (version : ℕ)
    → version ≤ length history
    → up_to (m ∷ history) version ≡ up_to history version
unfolding older
up_to-cons m history version h =
    ap (λ n. older n (m ∷ history)) (suc_minus (length history) version h)

up_to-length : (history : List Text) → up_to history (length history) ≡ history
unfolding older
up_to-length history = ap (λ n. older n history) (minus_self (length history))

pub IsServed-broadcast :
    (m : Text) (history : List Text) (client : Client)
    → IsServed history client
    → IsServed (m ∷ history) client
IsServed-broadcast m history client h = record {
  version = omega (arith, h.version);
  in_order = rw (up_to-cons m history client.last_msg_id h.version) (h.in_order);
}

pub IsServed-new :
    (history : List Text) (version : ℕ)
    → version ≡ length history
    → IsServed history (record { last_msg_id = version; written = [] })
IsServed-new history version e = record { version = omega arith; in_order = tt }

-- A write of the latest message.
IsServed-latest :
    (history : List Text) (client : Client)
    → client.last_msg_id < length history
    → IsServed history client
    → IsServed history
        (record { last_msg_id = length history; written = latest history ∷ client.written })
IsServed-latest [] client l h = absurd (omega arith)
IsServed-latest (m ∷ history) client l h = record {
  version = omega arith;
  in_order = rw (up_to-length (m ∷ history)) (
      inl (
        refl,
        Sublist-older (length history - client.last_msg_id) client.written history
            (rw (sym (up_to-cons m history client.last_msg_id (omega arith))) (h.in_order)),
      ));
}

write_client-latest :
    (history : List Text) (s : Server) (client : Client)
    → IsOrdered history s
    → write_client s client ≡ (
        if ltb client.last_msg_id (length history)
        then record { last_msg_id = length history; written = latest history ∷ client.written }
        else client)
unfolding write_client
write_client-latest history s client o = rw (o.fits) (rw (o.message) (rw (o.count) refl))

pub IsServed-write :
    (history : List Text) (s : Server) (client : Client)
    → IsOrdered history s
    → IsServed history client
    → IsServed history (write_client s client)
IsServed-write history s client o h =
    rw (write_client-latest history s client o)
      (elim (Bool-cases (ltb client.last_msg_id (length history))) [
        | inl e ↦ rw e (IsServed-latest history client (ground arith) h)
        | inr e ↦ rw e h
      ])
