-- ===== src/Python/Auth/Binding.antt =====
-- `Challenge.transcript` of reference/python/ma2a/auth.py, and what it leaves open.
use Prim.Native.String.{String}
use ma2a.Base.{◌≡◌, refl, sym, ◌∙◌, ap, All, Bytes, codes, List, [], ◌∷◌, ◌++◌, append_assoc, arith}
use ma2a.Json.{◌<<◌, comma, key_text}
use ma2a.Json.Reader.{string}
use ma2a.Wire.Canonical.{append_cancel, ok_pair}
use ma2a.Python.{
  Text, IsScalar, dumps_text, dumps, dumps_items, dumps_members, join_items, sort_members,
  insert_member, text_lt, join_members, ascii_escape, ascii_char, canonical_json,
}
use ma2a.Python.Strings.{string-dumps_text}
use ma2a.Python.Decoding.{utf8-injective}
use ma2a.Python.Member.{text_member}
use ma2a.Python.Auth.{text_items, Challenge, transcript}

dumps_text-injective :
    (t u : Text) (s s' : Bytes)
    → All IsScalar t
    → All IsScalar u
    → dumps_text t ++ s ≡ dumps_text u ++ s'
    → (t ≡ u) × (s ≡ s')
dumps_text-injective t u s s' ht hu h =
    let (same, rest) =
      ok_pair (sym (string-dumps_text t s ht) ∙ ap string h ∙ string-dumps_text u s' hu) in
    (utf8-injective t u ht hu same, rest)

text_member-injective :
    (k : String) (t u : Text) (s s' : Bytes)
    → All IsScalar t
    → All IsScalar u
    → text_member k t << s ≡ text_member k u << s'
    → (t ≡ u) × (s ≡ s')
text_member-injective k t u s s' ht hu h = dumps_text-injective t u s s' ht hu (
    append_cancel (key_text k) _ _ (
      sym (append_assoc (key_text k) (dumps_text t) s)
      ∙ h
      ∙ append_assoc (key_text k) (dumps_text u) s'))

-- What stands behind the first text of a list.
more_items : List Text → Bytes → Bytes
more_items [] s = b']' ∷ s
more_items (t ∷ ts) s = b',' ∷ (dumps_text t ++ more_items ts s)

abbrev AllScalar : List Text → Type 0
AllScalar = All (All IsScalar)

join_items-more_items :
    (t : Text) (ts : List Text) (s : Bytes)
    → join_items (dumps_items (text_items (t ∷ ts))) ++ b']' ∷ s ≡ dumps_text t ++ more_items ts s
unfolding join_items dumps_items text_items dumps more_items
join_items-more_items t [] s = refl
join_items-more_items t (u ∷ ts) s =
    rw (append_assoc (dumps_text t))
      (ap (λ (r : Bytes). dumps_text t ++ b',' ∷ r) (join_items-more_items u ts s))

more_items-injective :
    (ts us : List Text) (s s' : Bytes)
    → AllScalar ts
    → AllScalar us
    → more_items ts s ≡ more_items us s'
    → (ts ≡ us) × (s ≡ s')
unfolding more_items
more_items-injective [] [] s s' ht hu h = (refl, cc)
more_items-injective [] (u ∷ us) s s' ht hu h = ground arith
more_items-injective (t ∷ ts) [] s s' ht hu h = ground arith
more_items-injective (t ∷ ts) (u ∷ us) s s' (ht, hts) (hu, hus) h =
    let (same, rest) = dumps_text-injective t u (more_items ts s) (more_items us s') ht hu (cc) in
    let (sames, rests) = more_items-injective ts us s s' hts hus rest in (cc, rests)

-- What is printed of a list behind its bracket.
items_text : List Text → Bytes → Bytes
items_text [] s = b']' ∷ s
items_text (t ∷ ts) s = dumps_text t ++ more_items ts s

join_items-items_text :
    (ts : List Text) (s : Bytes)
    → join_items (dumps_items (text_items ts)) ++ b']' ∷ s ≡ items_text ts s
unfolding items_text
join_items-items_text [] s = unfold join_items dumps_items text_items in refl
join_items-items_text (t ∷ ts) s = join_items-more_items t ts s

items_text-injective :
    (ts us : List Text) (s s' : Bytes)
    → AllScalar ts
    → AllScalar us
    → items_text ts s ≡ items_text us s'
    → (ts ≡ us) × (s ≡ s')
unfolding items_text
items_text-injective [] [] s s' ht hu h = (refl, cc)
items_text-injective [] (u ∷ us) s s' ht hu h = unfold dumps_text in ground arith
items_text-injective (t ∷ ts) [] s s' ht hu h = unfold dumps_text in ground arith
items_text-injective (t ∷ ts) (u ∷ us) s s' (ht, hts) (hu, hus) h =
    let (same, rest) = dumps_text-injective t u (more_items ts s) (more_items us s') ht hu h in
    let (sames, rests) = more_items-injective ts us s s' hts hus rest in (cc, rests)

-- The text before the capabilities, and behind them.
-- Every text of it is free of surrogates.
pub record IsTextual (c : Challenge) : Type 0 where
  pub challenge : All IsScalar c.challenge_id
  pub client : All IsScalar c.client_nonce
  pub server : All IsScalar c.server_nonce
  pub organization : All IsScalar c.organization_id
  pub subject : All IsScalar c.agent_or_device_id
  pub version : All IsScalar c.protocol_version
  pub selected : AllScalar c.selected_capabilities

transcript_end : Challenge → Bytes
transcript_end c = comma << text_member "server_nonce" c.server_nonce << codes "}"

transcript_text : Challenge → Bytes
transcript_text c =
    codes "{"
    << (text_member "agent_or_device_id" c.agent_or_device_id
        << (comma
            << (text_member "challenge_id" c.challenge_id
                << (comma
                    << (text_member "client_nonce" c.client_nonce
                        << (comma
                            << (text_member "organization_id" c.organization_id
                                << (comma
                                    << (text_member "protocol_version" c.protocol_version
                                        << (comma
                                            << (key_text "selected_capabilities"
                                                << b'['
                                                  ∷ items_text c.selected_capabilities
                                                      (transcript_end c))))))))))))

transcript_lem : (c : Challenge) → transcript c ≡ transcript_text c
unfolding transcript canonical_json dumps dumps_members sort_members insert_member text_lt
    join_members transcript_text transcript_end dumps_text ascii_escape ascii_char key_text
transcript_lem c =
    rw (← join_items-items_text c.selected_capabilities (transcript_end c)) (simp append_assoc)

comma_member-injective :
    (k : String) (t u : Text) (s s' : Bytes)
    → All IsScalar t
    → All IsScalar u
    → comma ++ (text_member k t << s) ≡ comma ++ (text_member k u << s')
    → (t ≡ u) × (s ≡ s')
comma_member-injective k t u s s' ht hu h =
    text_member-injective k t u s s' ht hu (append_cancel comma _ _ h)

same_texts :
    (c d : Challenge)
    → IsTextual c
    → IsTextual d
    → transcript_text c ≡ transcript_text d
    → d ≡ record c { issued_at = d.issued_at; expires_at = d.expires_at }
unfolding transcript_text transcript_end
same_texts c d hc hd h =
    let (e1, h) =
      text_member-injective "agent_or_device_id" c.agent_or_device_id d.agent_or_device_id _ _
        hc.subject hd.subject (append_cancel (codes "{") _ _ h) in
    let (e2, h) =
      comma_member-injective "challenge_id" c.challenge_id d.challenge_id _ _ hc.challenge
        hd.challenge h in
    let (e3, h) =
      comma_member-injective "client_nonce" c.client_nonce d.client_nonce _ _ hc.client hd.client
        h in
    let (e4, h) =
      comma_member-injective "organization_id" c.organization_id d.organization_id _ _
        hc.organization hd.organization h in
    let (e5, h) =
      comma_member-injective "protocol_version" c.protocol_version d.protocol_version _ _ hc.version
        hd.version h in
    let h = append_cancel (key_text "selected_capabilities") _ _ (append_cancel comma _ _ h) in
    let (e6, h) =
      items_text-injective c.selected_capabilities d.selected_capabilities (transcript_end c)
        (transcript_end d) hc.selected hd.selected (append_cancel (b'[' ∷ []) _ _ h) in
    let (e7, _) =
      comma_member-injective "server_nonce" c.server_nonce d.server_nonce _ _ hc.server hd.server
        h in
    cc

-- Two challenges without surrogates that have one transcript agree in all that the transcript
-- names, so that a signature of it is for no other organization, device, nonces, protocol version
-- or capabilities. The two times are not in it.
pub transcript-injective :
    (c d : Challenge)
    → IsTextual c
    → IsTextual d
    → transcript c ≡ transcript d
    → d ≡ record c { issued_at = d.issued_at; expires_at = d.expires_at }
transcript-injective c d hc hd h =
    let e = sym (transcript_lem c) ∙ h ∙ transcript_lem d in same_texts c d hc hd e
