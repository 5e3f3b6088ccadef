-- ===== src/Ca/Keystore/Pem.antt =====
-- What src/ca/keystore.rs reads from PEM text.
use Prim.Native.String
use blapki.Prelude.{
  String, Bytes, as_bytes, Result, ok, err, Result-cases, inl, inr, ◌≡◌, refl, true, false, Option,
  none, some, List, [], ◌∷◌, ◌++◌, All, trim,
}
use blapki.Ca.Keystore.{
  Block, KeyCodec, begin_label, is_end, push_block, blocks_from, load_key_block, first_key,
}

-- The lines of a body, joined after `b64`.
abbrev pub joined : String → List String → String
joined b64 [] = b64
joined b64 (line ∷ more) = joined (String.◌++◌ b64 (trim line)) more

-- A part of a PEM text, up to the end of its block.
pub record Section : Type 0 where
  pub before : List String
  pub first : String
  pub label : String
  pub body : List String
  pub last : String

abbrev pub IsSection : Section → Type 0
IsSection s =
    All (λ line. begin_label line ≡ none) s.before
    × (begin_label s.first ≡ some s.label)
    × All (λ line. is_end line ≡ false) s.body
    × (is_end s.last ≡ true)

abbrev pub lines_of : List Section → List String → List String
lines_of [] after = after
lines_of (s ∷ sections) after = s.before ++ s.first ∷ s.body ++ s.last ∷ lines_of sections after

module _ (c : KeyCodec) where
  blocks_from-body :
      (label b64 : String) (body : List String) (last : String) (rest : List String)
      → All (λ line. is_end line ≡ false) body
      → is_end last ≡ true
      → blocks_from c (some (label, b64)) (body ++ last ∷ rest)
        ≡ push_block c label (joined b64 body) (blocks_from c none rest)
  unfolding blocks_from
  blocks_from-body label b64 [] last rest h e = rw (e, blocks_from) refl
  blocks_from-body label b64 (line ∷ body) last rest (h, hs) e =
      rw (h, blocks_from) (blocks_from-body label (String.◌++◌ b64 (trim line)) body last rest hs e)

  pub blocks_from-block :
      (before body rest : List String) (first last label : String)
      → All (λ line. begin_label line ≡ none) before
      → begin_label first ≡ some label
      → All (λ line. is_end line ≡ false) body
      → is_end last ≡ true
      → blocks_from c none (before ++ first ∷ body ++ last ∷ rest)
        ≡ push_block c label (joined "" body) (blocks_from c none rest)
  unfolding blocks_from
  blocks_from-block [] body rest first last label h e b f =
      rw (e, blocks_from) (blocks_from-body label "" body last rest b f)
  blocks_from-block (line ∷ before) body rest first last label (h, hs) e b f =
      rw (h, blocks_from) (blocks_from-block before body rest first last label hs e b f)

  blocks_from-text :
      (lines : List String)
      → All (λ line. begin_label line ≡ none) lines
      → blocks_from c none lines ≡ []
  unfolding blocks_from
  blocks_from-text [] h = refl
  blocks_from-text (line ∷ lines) (h, hs) = rw (h, blocks_from) (blocks_from-text lines hs)

  -- What a section holds, if its body is base64.
  abbrev pub content : Section → Result String Bytes
  content s = c.base64_decode (as_bytes (joined "" s.body))

  -- The blocks of sections, in order: one of each whose body is base64, none of the others.
  pub data Holds : List Section → List Block → Type 0 where
    no_more : Holds [] []
    one_more :
        {s : Section} {sections : List Section} {blocks : List Block} (der : Bytes)
        → content s ≡ ok der
        → Holds sections blocks
        → Holds (s ∷ sections) ((s.label, der) ∷ blocks)
    passed_over :
        {s : Section} {sections : List Section} {blocks : List Block} (e : String)
        → content s ≡ err e
        → Holds sections blocks
        → Holds (s ∷ sections) blocks

  push_block-Holds :
      (s : Section) (sections : List Section) (blocks : List Block)
      → Holds sections blocks
      → Holds (s ∷ sections) (push_block c s.label (joined "" s.body) blocks)
  unfolding push_block
  push_block-Holds s sections blocks h = elim (Result-cases (content s)) [
    | inl (der, e) ↦ rw (e, push_block) (one_more der e h)
    | inr (x, e) ↦ rw (e, push_block) (passed_over x e h)
  ]

  -- A PEM text, by its lines: any number of sections, each of lines that begin no block, a BEGIN
  -- line, body lines and an END line, and then lines that begin no block. The blocks that are read
  -- are those of the sections, in order: the label of the section, and the base64 of its body joined
  -- without the white space around its lines; a section whose body is no base64 is passed over, and
  -- no other with it.
  pub blocks_from-Holds :
      (sections : List Section) (after : List String)
      → All IsSection sections
      → All (λ line. begin_label line ≡ none) after
      → Holds sections (blocks_from c none (lines_of sections after))
  blocks_from-Holds [] after h t = rw (blocks_from-text after t) no_more
  blocks_from-Holds (s ∷ sections) after ((b, f, y, l), hs) t =
      rw
        (blocks_from-block s.before s.body (lines_of sections after) s.first s.last s.label b f y l)
        (push_block-Holds s sections _ (blocks_from-Holds sections after hs t))

  -- Blocks that are no keys, such as the certificates of a bundle, do not change which key is loaded.
  pub first_key-skip :
      (password : Option String) (others blocks : List Block)
      → All (λ block. load_key_block c block.0 block.1 password ≡ none) others
      → first_key c password (others ++ blocks) ≡ first_key c password blocks
  unfolding first_key
  first_key-skip password [] blocks h = refl
  first_key-skip password ((label, der) ∷ others) blocks (h, hs) =
      rw (h, first_key) (first_key-skip password others blocks hs)
