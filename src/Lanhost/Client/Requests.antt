-- ===== src/Lanhost/Client/Requests.antt =====
-- The whole of `RPC` of internal/lanhost/client.go, from the nonce to the data of the result.
pub mod Reported
use peercontext.Common.{Option, String, length, ◌==◌, nat_eq, if◌then◌else◌}
use peercontext.Common.Text.{Bytes}
use peercontext.Errors.{plain, Result, ok, err, or_error, ◌>>=◌}
use peercontext.Protocol.Time.{Time}
use peercontext.Protocol.Platform.{Platform}
use peercontext.Protocol.Signing.{SignedMessage, new_signed_http_message}
use peercontext.Lanhost.Wire.{RpcResult}
use peercontext.Lanhost.Client.{Client, Reading, Surroundings, rpc}

-- the message that is signed
unfoldable pub rpc_message :
    Platform → String → String → String → String → Bytes → Time → Bytes → SignedMessage
unfolding new_signed_http_message
rpc_message p project_id member_id kind nonce payload now private_key =
    new_signed_http_message p project_id member_id kind "POST" "/v2/rpc" nonce payload now
      private_key

module _ {A : Type 0} (decode : Bytes → Option A) (before : A) where
  -- The data of a result, where no data leaves the output as it was.
  unfoldable pub output : RpcResult → Result A
  output result =
      if length result.body == 0 then ok before else or_error (decode result.body) (plain "json")

  -- RPC, given the nonce that is drawn
  unfoldable pub call :
      Platform → Reading → Result String → Surroundings → String → Client → Result A × Client
  unfolding rpc output
  call p reading nonce around kind c = elim nonce [
    | err e ↦ (err e, c)
    | ok drawn ↦ let (r, c') = rpc p reading around kind drawn c in (r >>= output, c')
  ]
