-- ===== src/Router/Headers/Copying.antt =====
-- Which response headers reach the client.
use local_inference_router.Base.{
  Text, ◌≡◌, refl, ◌∙◌, ◌⊎◌, inl, inr, Bool-cases, Bool, ◌||◌, List, [], ◌∷◌, ◌++◌, arith, mem_text,
  lookup-insert, text_eq, text_eq_iff, if◌then◌else◌, append_assoc, append-nil,
}
use local_inference_router.Router.Headers.{
  Header, header_values, header_add, add_values, copy_from, copy_response_headers,
  hop_by_hop_and_unsafe, connection_nominated_headers,
}
use local_inference_router.Router.Headers.Blocking.{Blocked, Blocked-iff}
use local_inference_router.Router.Headers.Canonical.{canonical_header_key}

-- The fixed list, and the names that the Connection header of the response nominates.
abbrev pub is_blocked : List Text → Text → Bool
is_blocked nominated key =
    mem_text (canonical_header_key key) hop_by_hop_and_unsafe
    || mem_text (canonical_header_key key) nominated

-- The values that a header holds under any spelling of a name.
pub gather : Header → Text → List Text
gather [] key = []
gather ((name, values) ∷ h) key =
    (if text_eq (canonical_header_key name) (canonical_header_key key) then values else [])
    ++ gather h key

module _ (key : Text) where
  values-add :
      (name v : Text) (h : Header)
      → header_values (header_add name v h) key ≡ (
          if text_eq (canonical_header_key name) (canonical_header_key key)
          then header_values h key ++ v ∷ []
          else header_values h key)
  unfolding header_values header_add
  values-add name v h = ground (
    arith,
    lookup-insert (canonical_header_key name) (canonical_header_key key)
        (header_values h name ++ v ∷ []) h,
    text_eq_iff (canonical_header_key name) (canonical_header_key key),
  )

  values-add_values :
      (name : Text) (vs : List Text) (h : Header)
      → header_values (add_values name vs h) key ≡ (
          if text_eq (canonical_header_key name) (canonical_header_key key)
          then header_values h key ++ vs
          else header_values h key)
  unfolding add_values
  values-add_values name [] h = ground (arith, append-nil (header_values h key))
  values-add_values name (v ∷ vs) h = ground (
    arith,
    values-add_values name vs (header_add name v h),
    values-add name v h,
    append_assoc (header_values h key) (v ∷ []) vs,
  )

  values-copy_from :
      (nominated : List Text) (src dst : Header)
      → header_values (copy_from nominated src dst) key
        ≡ header_values dst key ++ (if is_blocked nominated key then [] else gather src key)
  unfolding copy_from gather
  values-copy_from nominated [] dst = ground (arith, append-nil (header_values dst key))
  values-copy_from nominated ((name, values) ∷ src) dst = ground (
    arith,
    values-copy_from nominated src dst,
    values-copy_from nominated src (add_values name values dst),
    values-add_values name values dst,
    text_eq_iff (canonical_header_key name) (canonical_header_key key),
    append_assoc (header_values dst key) values (gather src key),
  )

  -- Under each name the client gets the values that its header already had, followed by nothing
  -- if the name is one of the twelve fixed ones or a token, between commas and not blank, of a
  -- Connection header of the response, and otherwise by all values of the response under any
  -- spelling of the name, in their order.
  pub values-copy_response_headers :
      (dst src : Header)
      → (Blocked src key
          × (header_values (copy_response_headers dst src) key ≡ header_values dst key))
        ⊎ ((¬ Blocked src key)
            × (header_values (copy_response_headers dst src) key
                ≡ header_values dst key ++ gather src key))
  unfolding copy_response_headers
  values-copy_response_headers dst src =
      let copied = values-copy_from (connection_nominated_headers src) src dst in
      elim (Bool-cases (is_blocked (connection_nominated_headers src) key)) [
        | inl blocked ↦ inl (
          (Blocked-iff src key).0 blocked,
          copied ∙ rw blocked (append-nil (header_values dst key)),
        )
        | inr free ↦ inr (λ h. cc (free, (Blocked-iff src key).1 h), copied ∙ rw free refl)
      ]
