-- ===== src/Client/Pending.antt =====
-- crates/mq-proxy/src/client/pending.rs: the requests that wait for authentication. A socket's key is a
-- number; times are in microseconds and their difference stops at 0, as in `Time::sub`.
pub mod Laws
use mqproxy.Prelude.{
  ℕ, ◌+◌, ◌-◌, List, [], ◌∷◌, ◌++◌, Bool, true, false, not, Option, none, some, leb, ◌==◌,
  if◌then◌else◌, length,
}
use mqproxy.Wire.Frames.Codes.{TcpErr}
use mqproxy.Ingress.Request.{Target}
use mqproxy.Ingress.Socks5.{success_reply, error_reply}
use mqproxy.Ingress.HttpConnect.{http_success_reply, http_error_reply}

abbrev pub max_pending : ℕ
max_pending = 256

pub data IngressKind : Type 0 where
  socks5 : IngressKind
  http_connect : IngressKind
  transparent : IngressKind

abbrev pub kind_success_reply : IngressKind → Option (List ℕ)
kind_success_reply IngressKind.socks5 = some success_reply
kind_success_reply IngressKind.http_connect = some http_success_reply
kind_success_reply transparent = none

abbrev pub kind_error_reply : IngressKind → TcpErr → Option (List ℕ)
kind_error_reply socks5 e = some (error_reply e)
kind_error_reply http_connect e = some (http_error_reply e)
kind_error_reply transparent e = none

pub record PendingOpen : Type 0 where
  pub tcp : ℕ
  pub target : Target
  pub kind : IngressKind
  pub enqueued_at : ℕ

-- The oldest request comes first.
pub record Pending : Type 0 where
  pub q : List PendingOpen
  pub deadline : ℕ

abbrev pub new : ℕ → Pending
new deadline = record { q = []; deadline = deadline }

-- `none` is `Err(Full(open))`.
unfoldable pub push : Pending → PendingOpen → Option Pending
push p waiting =
    if leb max_pending (length p.q) then none else some (record p { q = p.q ++ (waiting ∷ []) })

-- The queue without the first request of `tcp`, with that request.
unfoldable pub remove_from : List PendingOpen → ℕ → List PendingOpen × Option PendingOpen
remove_from [] tcp = ([], none)
remove_from (o ∷ q) tcp =
    let (q', found) = remove_from q tcp in if o.tcp == tcp then (q, some o) else (o ∷ q', found)

unfoldable pub remove : Pending → ℕ → Pending × Option PendingOpen
unfolding remove_from
remove p tcp = let (q', found) = remove_from p.q tcp in (record p { q = q' }, found)

abbrev pub is_expired : ℕ → ℕ → PendingOpen → Bool
is_expired deadline now o = leb deadline (now - o.enqueued_at)

-- `partition`: the expired requests, then the others.
unfoldable pub partition :
    (PendingOpen → Bool) → List PendingOpen → List PendingOpen × List PendingOpen
partition test [] = ([], [])
partition test (o ∷ q) =
    let (gone, keep) = partition test q in if test o then (o ∷ gone, keep) else (gone, o ∷ keep)

unfoldable pub expire : Pending → ℕ → Pending × List PendingOpen
unfolding partition
expire p now =
    let (gone, keep) = partition (is_expired p.deadline now) p.q in (record p { q = keep }, gone)

abbrev pub drain : Pending → Pending × List PendingOpen
drain p = (record p { q = [] }, p.q)
