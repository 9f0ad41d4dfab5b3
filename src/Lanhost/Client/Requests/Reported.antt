-- ===== src/Lanhost/Client/Requests/Reported.antt =====
-- What a whole `RPC` of internal/lanhost/client.go returns, from the nonce to the data.
use peercontext.Common.{◌≡◌, refl, inl, inr, Option, String, arith}
use peercontext.Common.Text.{Bytes}
use peercontext.Errors.{Result, ok, err, ◌>>=◌, Result-cases}
use peercontext.Protocol.Platform.{Platform}
use peercontext.Lanhost.Wire.{RpcResult}
use peercontext.Lanhost.Client.{Client, Reading, Surroundings, rpc}
use peercontext.Lanhost.Client.Replies.{FromHost, SameHost}
use peercontext.Lanhost.Client.Calls.{IsFetched, rpc_ok, rpc-SameHost}
use peercontext.Lanhost.Client.Requests.{output, call}

module _ {A : Type 0} (decode : Bytes → Option A) (before : A) (p : Platform) (reading : Reading)
    (nonce : Result String) (around : Surroundings) (kind : String) where
  -- Data that the host of a Project has signed in reply to the nonce of a call, for this kind of call,
  -- in an answer of the network to it.
  pub record Reported (key : Bytes) (project_id : String) (a : A) : Type 0 where
    pub drawn : String
    pub is_drawn : nonce ≡ ok drawn
    pub result : RpcResult
    pub host : FromHost p reading (IsFetched around) key project_id kind drawn result
    pub decoded : output decode before result ≡ ok a

  bound :
      (r : Result RpcResult) (a : A)
      → (r >>= output decode before) ≡ ok a
      → (result : RpcResult) × (r ≡ ok result) × (output decode before result ≡ ok a)
  bound (ok result) a h = (result, refl, h)
  bound (err e) a h = absurd (ground arith)

  pub call-Reported :
      (c : Client) (a : A)
      → (call decode before p reading nonce around kind c).0 ≡ ok a
      → Reported c.host_public_key c.project_id a
  unfolding call
  call-Reported c a h = elim (Result-cases nonce) [
    | inr (x, e) ↦ absurd (ground (arith, e))
    | inl (drawn, e) ↦
        let (result, got, decoded) =
          bound (rpc p reading around kind drawn c).0 a (rw (e, call) at h) in
        record {
          drawn = drawn;
          is_drawn = e;
          result = result;
          host = rpc_ok p reading around kind drawn c result got;
          decoded = decoded;
        }
  ]

  pub call-SameHost :
      (c : Client) → SameHost p reading c (call decode before p reading nonce around kind c).1
  unfolding call
  call-SameHost c = elim (Result-cases nonce) [
    | inr (x, e) ↦ rw (e, call) (record { project = refl; key = refl })
    | inl (drawn, e) ↦ rw (e, call) (rpc-SameHost p reading around kind drawn c)
  ]
