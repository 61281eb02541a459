-- ===== src/Server/Gateway/Replies.antt =====
-- What the gateway may answer: a reply, an error, or a panic with its cause.
use a_simple_rpc.Prelude.{ℕ, ◌≡◌, ◌⊎◌, [], refl, some, bytes_eq, text_eq}
use a_simple_rpc.Prelude.Bytes.{codes}
use a_simple_rpc.Prelude.Maps.{lookup, insert, lookup-insert}
use a_simple_rpc.Outcome.{Err, Outcome, ok, fail, panic, stuck}
use a_simple_rpc.Server.Pool.{Pools}
use a_simple_rpc.Server.Converter.{HttpHeader, x_message_status_type, x_error_message}
use a_simple_rpc.Server.Gateway.{
  HttpResponse, Web, Replied, write_err_header, refuse, get_then, put_then,
}

-- The code did not return, with an error or without.
abbrev pub Crashed : {A : Type 0} → Outcome A → Type 0
Crashed panic = Unit {0}
Crashed stuck = Unit {0}
Crashed _ = ⊥

-- The code gave no value.
abbrev pub Broken : {A : Type 0} → Outcome A → Type 0
Broken (ok x) = ⊥
Broken _ = Unit {0}

module _ {V : Type 0} (w : Web V) where
  -- An error: its status, its text, and no body.
  pub record Refuses (r : HttpResponse) : Type 0 where
    pub error : Err
    pub code : (r.code ≡ 403) ⊎ (r.code ≡ 500)
    pub status : lookup x_message_status_type r.header ≡ some (codes "Error")
    pub message : lookup x_error_message r.header ≡ some (w.backend.error_text error)
    pub body : r.body ≡ []

  -- A reply of which `P` holds, an error, or a panic that has the cause `N`.
  pub data Answered (P : HttpResponse → Type 0) (N : Type 0) : Replied V → Type 0 where
    replies : (r : HttpResponse) (ps : Pools V) → P r → Answered P N (ok r, ps)
    refuses : (r : HttpResponse) (ps : Pools V) → Refuses r → Answered P N (ok r, ps)
    panics : (ps : Pools V) → N → Answered P N (panic, ps)

  pub map-Answered :
      {P Q : HttpResponse → Type 0} {M N : Type 0} {x : Replied V}
      → ((r : HttpResponse) → P r → Q r)
      → (M → N)
      → Answered P M x
      → Answered Q N x
  map-Answered f g (replies r ps h) = replies r ps (f r h)
  map-Answered f g (refuses r ps h) = refuses r ps h
  map-Answered f g (panics ps h) = panics ps (g h)

  refuse-Refuses :
      (wh : HttpHeader) (code : ℕ) (e : Err)
      → (code ≡ 403) ⊎ (code ≡ 500)
      → Refuses (write_err_header w wh code e)
  unfolding write_err_header x_error_message x_message_status_type bytes_eq
  refuse-Refuses wh code e c = record {
    error = e;
    code = c;
    status =
        rw
          (
            lookup-insert x_error_message x_message_status_type (w.backend.error_text e)
                (insert x_message_status_type (codes "Error") wh),
            lookup-insert x_message_status_type x_message_status_type (codes "Error") wh,
          )
          refl;
    message =
        rw
          (lookup-insert x_error_message x_error_message (w.backend.error_text e)
            (insert x_message_status_type (codes "Error") wh))
          refl;
    body = refl;
  }

  module _ {P : HttpResponse → Type 0} {N : Type 0} where
    pub refuse-Answered :
        (wh : HttpHeader) (code : ℕ) (e : Err) (ps : Pools V)
        → (code ≡ 403) ⊎ (code ≡ 500)
        → Answered P N (refuse w wh code e ps)
    refuse-Answered wh code e ps c = refuses _ ps (refuse-Refuses wh code e c)

    pub put_then-Answered :
        (o : Outcome (Pools V)) (ps : Pools V) (k : Pools V → Replied V)
        → ((ps' : Pools V) → o ≡ ok ps' → Answered P N (k ps'))
        → (Broken o → N)
        → Answered P N (put_then w o ps k)
    put_then-Answered (ok ps') ps k h n = h ps' refl
    put_then-Answered (fail e) ps k h n = panics ps (n tt)
    put_then-Answered panic ps k h n = panics ps (n tt)
    put_then-Answered stuck ps k h n = panics ps (n tt)

    pub get_then-Answered :
        (o : Outcome (V × Pools V)) (ps : Pools V) (k : V → Pools V → Replied V)
        → ((x : V) (ps' : Pools V) → o ≡ ok (x, ps') → Answered P N (k x ps'))
        → (Broken o → N)
        → Answered P N (get_then w o ps k)
    get_then-Answered (ok (x, ps')) ps k h n = h x ps' refl
    get_then-Answered (fail e) ps k h n = panics ps (n tt)
    get_then-Answered panic ps k h n = panics ps (n tt)
    get_then-Answered stuck ps k h n = panics ps (n tt)
