-- ===== src/Sandbox/Paths.antt =====
-- A path below /sandbox/ and the key under which its file is kept.
use feedo.Base.{◌≡◌, refl, ap, ◌∙◌, String, ◌<>◌, List, [], ◌∷◌, false, ◌==◌, All}
use Prim.Native.Char.{code}
use Prim.Native.String.{[], ◌∷◌}
use text.Mathlib.TextLemmas.{nil-append, cons-append, append_assoc}
use feedo.Sandbox.{split, join_parts, join, file_path, with_index, sandbox_key}

-- Whether a text has no slash.
abbrev pub HasNoSlash : String → Type 0
HasNoSlash [] = Unit
HasNoSlash (c ∷ s) = ((code c == b'/') ≡ false) × HasNoSlash s

split_alone : (a : String) → HasNoSlash a → split b'/' a ≡ (a, [])
unfolding split
split_alone [] h = refl
split_alone (c ∷ s) (other, h) = rw (split_alone s h, other) refl

split_slash : (b : String) → split b'/' ("/" <> b) ≡ ("", (split b'/' b).0 ∷ (split b'/' b).1)
unfolding split
split_slash b = rw (cons-append, nil-append) refl

split-append :
    (a b : String)
    → HasNoSlash a
    → split b'/' (a <> "/" <> b) ≡ (a, (split b'/' b).0 ∷ (split b'/' b).1)
unfolding split
split-append [] b h = rw (nil-append) (split_slash b)
split-append (c ∷ s) b (other, h) = rw (cons-append, split-append s b h, other) refl

split-join_parts :
    (part : String) (parts : List String)
    → HasNoSlash part
    → All HasNoSlash parts
    → split b'/' (join_parts part parts) ≡ (part, parts)
unfolding join_parts
split-join_parts part [] h hs = split_alone part h
split-join_parts part (next ∷ parts) h hs =
    rw (split-append part (join_parts next parts) h, split-join_parts next parts hs.0 hs.1) refl

sandbox-HasNoSlash : HasNoSlash "sandbox"
sandbox-HasNoSlash = (refl, (refl, (refl, (refl, (refl, (refl, (refl, tt)))))))

pub split-path :
    (cid part : String) (parts : List String)
    → HasNoSlash cid
    → HasNoSlash part
    → All HasNoSlash parts
    → split b'/' ("/sandbox/" <> cid <> "/" <> join_parts part parts)
      ≡ ("", "sandbox" ∷ cid ∷ part ∷ parts)
split-path cid part parts c p ps =
    let rest = cid <> "/" <> join_parts part parts in
    ap (split b'/') (append_assoc "/sandbox" "/" rest ∙ append_assoc "/" "sandbox" ("/" <> rest))
    ∙ split_slash ("sandbox" <> "/" <> rest)
    ∙ rw
        (
          split-append "sandbox" rest sandbox-HasNoSlash,
          split-append cid (join_parts part parts) c,
          split-join_parts part parts p ps,
        )
        refl

pub sandbox_key-path :
    (cid part : String) (parts : List String)
    → HasNoSlash cid
    → HasNoSlash part
    → All HasNoSlash parts
    → sandbox_key ("/sandbox/" <> cid <> "/" <> join_parts part parts)
      ≡ cid <> "/" <> with_index (join_parts part parts)
unfolding sandbox_key file_path join
sandbox_key-path cid part parts c p ps = rw (split-path cid part parts c p ps) refl
