-- ===== src/Http/Upload.antt =====
-- The first two stages of `handle_request`: the context of a connection, and the body that its
-- chunks add up to, at most MAX_PAYLOAD_SIZE bytes.
use cyrenus.Prelude.{
  ap, ◌∙◌, sym, ◌<◌, take, take_all, length-append, ℕ, ◌+◌, ◌≤◌, ◌≡◌, refl, Bool, true, not, Option,
  none, some, List, [], ◌∷◌, ◌++◌, length, ltb, if◌then◌else◌, Text, arith,
}
use mathlib.Core.Path.{subst}
use mathlib.Core.List.{append-nil, append_assoc}
use cyrenus.Http.Types.{ConnectionContext, Reply, refused, more}

abbrev pub max_payload_size : ℕ
max_payload_size = 1048576

-- calloc
abbrev pub new_context : ConnectionContext
new_context = record { data_ptr = none; size = 0 }

-- The bytes behind the pointer.
abbrev pub bytes : Option Text → Text
bytes none = []
bytes (some text) = text

-- realloc keeps the bytes, and memcpy writes the chunk at `size`.
unfoldable pub append : ConnectionContext → Text → ConnectionContext
append ctx chunk = record {
  data_ptr = some (take ctx.size (bytes ctx.data_ptr) ++ chunk);
  size = ctx.size + length chunk;
}

-- A chunk that is not empty; `allocated` is what realloc answers.
unfoldable pub receive : Bool → ConnectionContext → Text → Reply × ConnectionContext
receive allocated ctx chunk =
    if ltb max_payload_size (ctx.size + length chunk)
    then (refused, ctx)
    else if not allocated
    then (refused, ctx)
    else (more, append ctx chunk)

-- What follows a chunk that is taken.
on_more : Reply → Option ConnectionContext → Option ConnectionContext
on_more more rest = rest
on_more _ rest = none

-- The chunks of a body in order, each with what realloc answers at it, until one is refused.
unfoldable pub receive_all : List (Bool × Text) → ConnectionContext → Option ConnectionContext
unfolding on_more
receive_all [] ctx = some ctx
receive_all ((allocated, chunk) ∷ chunks) ctx =
    let r = receive allocated ctx chunk in on_more r.0 (receive_all chunks r.1)

abbrev pub body : List (Bool × Text) → Text
body [] = []
body ((allocated, chunk) ∷ chunks) = chunk ++ body chunks

abbrev pub AllAllocated : List (Bool × Text) → Type 0
AllAllocated [] = Unit
AllAllocated ((allocated, chunk) ∷ chunks) = (allocated ≡ true) × AllAllocated chunks

-- The size is that of the bytes.
abbrev pub IsSized : ConnectionContext → Type 0
IsSized ctx = ctx.size ≡ length (bytes ctx.data_ptr)

append-bytes :
    (ctx : ConnectionContext) (chunk : Text)
    → IsSized ctx
    → bytes (append ctx chunk).data_ptr ≡ bytes ctx.data_ptr ++ chunk
unfolding append
append-bytes ctx chunk e = rw e (rw (take_all (bytes ctx.data_ptr)) refl)

append-IsSized : (ctx : ConnectionContext) (chunk : Text) → IsSized ctx → IsSized (append ctx chunk)
unfolding append
append-IsSized ctx chunk e =
    rw e (rw (take_all (bytes ctx.data_ptr), length-append (bytes ctx.data_ptr) chunk) refl)

-- A body has arrived in a context that `before` was in.
abbrev pub Arrived : Text → Text → Option ConnectionContext → Type 0
Arrived before rest result =
    (ctx : ConnectionContext) × (result ≡ some ctx)
    × (bytes ctx.data_ptr ≡ before ++ rest)
    × (ctx.size ≡ length (before ++ rest))

receive_more :
    (ctx : ConnectionContext) (chunk : Text)
    → ctx.size + length chunk ≤ max_payload_size
    → receive true ctx chunk ≡ (more, append ctx chunk)
unfolding receive
receive_more ctx chunk h = ground arith

Arrived-append :
    (ctx : ConnectionContext) (chunk rest : Text) (result : Option ConnectionContext)
    → IsSized ctx
    → Arrived (bytes (append ctx chunk).data_ptr) rest result
    → Arrived (bytes ctx.data_ptr) (chunk ++ rest) result
Arrived-append ctx chunk rest result e arrived =
    rw (sym (append_assoc (bytes ctx.data_ptr) chunk rest))
      (subst (λ b. Arrived b rest result) (append-bytes ctx chunk e) arrived)

receive_all_more :
    (ctx : ConnectionContext) (chunk : Text) (chunks : List (Bool × Text))
    → ctx.size + length chunk ≤ max_payload_size
    → receive_all ((true, chunk) ∷ chunks) ctx ≡ receive_all chunks (append ctx chunk)
unfolding receive_all on_more
receive_all_more ctx chunk chunks h =
    ap (λ r. on_more r.0 (receive_all chunks r.1)) (receive_more ctx chunk h)

append-size :
    (ctx : ConnectionContext) (chunk : Text) → (append ctx chunk).size ≡ ctx.size + length chunk
unfolding append
append-size ctx chunk = refl

receive_all-from :
    (chunks : List (Bool × Text)) (ctx : ConnectionContext)
    → AllAllocated chunks
    → IsSized ctx
    → ctx.size + length (body chunks) ≤ max_payload_size
    → Arrived (bytes ctx.data_ptr) (body chunks) (receive_all chunks ctx)
unfolding receive_all
receive_all-from [] ctx a e h = (
  ctx,
  refl,
  sym (append-nil (bytes ctx.data_ptr)),
  e ∙ ap length (sym (append-nil (bytes ctx.data_ptr))),
)
receive_all-from ((allocated, chunk) ∷ chunks) ctx (a, as') e h = rw a (
    rw (receive_all_more ctx chunk chunks (omega (arith, length-append chunk (body chunks)))) (
      Arrived-append ctx chunk (body chunks) _ e (
        receive_all-from chunks (append ctx chunk) as' (append-IsSized ctx chunk e)
          (omega (arith, append-size ctx chunk, length-append chunk (body chunks))))))

receive_all-refused :
    (chunks : List (Bool × Text)) (ctx : ConnectionContext)
    → ctx.size ≤ max_payload_size
    → max_payload_size < ctx.size + length (body chunks)
    → receive_all chunks ctx ≡ none
unfolding receive_all receive append on_more
receive_all-refused [] ctx h l = absurd (omega arith)
receive_all-refused ((allocated, chunk) ∷ chunks) ctx h l =
    ground (arith, length-append chunk (body chunks), receive_all-refused chunks (append ctx chunk))

-- The body of a request arrives whole: if realloc answers at every chunk and the chunks make at
-- most MAX_PAYLOAD_SIZE bytes, the context that a connection starts with ends with the bytes of
-- all chunks in order, and with their number as its size.
pub receive_all-body :
    (chunks : List (Bool × Text))
    → AllAllocated chunks
    → length (body chunks) ≤ max_payload_size
    → (ctx : ConnectionContext) × (receive_all chunks new_context ≡ some ctx)
      × (bytes ctx.data_ptr ≡ body chunks)
      × (ctx.size ≡ length (body chunks))
receive_all-body chunks a h = receive_all-from chunks new_context a refl (omega arith)

-- A body of more than MAX_PAYLOAD_SIZE bytes is refused, whatever its chunks are.
pub receive_all_too_large :
    (chunks : List (Bool × Text))
    → max_payload_size < length (body chunks)
    → receive_all chunks new_context ≡ none
receive_all_too_large chunks h = receive_all-refused chunks new_context (omega arith) (omega arith)
