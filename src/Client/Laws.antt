-- ===== src/Client/Laws.antt =====
-- What the results of src/client/http.rs say about a server's answer.
use diynamo.Base.{
  Bytes, Result, ok, err, ◌>>=◌ as bind, String, context, none, ◌≡◌, ◌↔◌, refl, arith, true,
}
use diynamo.Base.Exec.{Exec, continue, lift}
use diynamo.Base.Utf8.{is_utf8}
use diynamo.Api.{Request, Response}
use diynamo.Client.{
  KvClient, internal_kv_url, get_request, send_with, read_internal_response, get_internal_versioned,
}

-- A decoded answer reports a missing key exactly for a 404.
continue-bind :
    {W A B : Type 0} (r : Result A) (f : A → Result B) (w : W)
    → (continue r (λ a. lift (f a)) w).0 ≡ bind r f
continue-bind (ok a) f w = refl
continue-bind (err e) f w = refl

read-none_iff :
    (response : Response) → (read_internal_response response ≡ ok none) ↔ (response.status ≡ 404)
unfolding read_internal_response
read-none_iff response = ground arith

answer-none_iff :
    (msg : String) (r : Result Response)
    → (bind (context msg r) read_internal_response ≡ ok none)
      ↔ ((response : Response) × (r ≡ ok response) × (response.status ≡ 404))
answer-none_iff msg (ok response) = (
  λ e. (response, refl, (read-none_iff response).0 e),
  λ a. (read-none_iff response).1 (ground (arith, a.1, a.2)),
)
answer-none_iff msg (err e) = (λ h. cc, λ a. cc (a.1))

module _ {W : Type 0} (send : Request → Exec W Response) where
  -- For a key in UTF-8, an internal read reports a missing key exactly when the server answered
  -- 404 Not Found: no other answer, and no failure of the transport, is taken for a missing key.
  pub get_internal_versioned-none_iff :
      (c : KvClient) (key : Bytes) (w : W)
      → is_utf8 key ≡ true
      → ((get_internal_versioned send c key w).0 ≡ ok none) ↔ (
          (response : Response) × ((send (get_request (internal_kv_url c key)) w).0 ≡ ok response)
          × (response.status ≡ 404))
  unfolding get_internal_versioned send_with
  get_internal_versioned-none_iff c key w h =
      let (r, w') = send (get_request (internal_kv_url c key)) w in
      rw (h, continue-bind (context "internal get request failed" r) read_internal_response w')
        (answer-none_iff "internal get request failed" r)
