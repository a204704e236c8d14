-- ===== src/Helper/Conf/Rebuild.antt =====
-- `_split_conf` on what `_rebuild_conf` writes.
use keekars_pi_vpn.Base.{◌≡◌, refl, ◌∙◌, true, false, List, [], ◌∷◌, ◌++◌, map, arith, All, elem}
use keekars_pi_vpn.Base.Text.{
  Text, newline, starts_with, rstrip_newlines, rstrip_newlines-append, starts_with-rstrip_newlines,
  starts_with-append_sep,
}
use mathlib.Core.List.{append-nil, append_assoc}
use keekars_pi_vpn.Helper.Conf.{peer_mark, split_conf, line_end, rebuild_blocks, rebuild_conf}

-- A part of a file: no `[Peer]` line begins inside it.
abbrev pub IsPart : Text → Type 0
IsPart t = split_conf t ≡ (t, [])

-- A part that a `[Peer]` line begins.
abbrev pub IsBlock : Text → Type 0
IsBlock t = IsPart t × (starts_with peer_mark t ≡ true)

no_newline_in_mark : elem newline peer_mark ≡ false
unfolding elem
no_newline_in_mark = refl

no_mark_at_end : starts_with peer_mark [] ≡ false
unfolding starts_with
no_mark_at_end = refl

-- Behind a part and its newline, the split goes on at the next block.
split-append :
    (t rest : Text)
    → IsPart t
    → starts_with peer_mark rest ≡ true
    → split_conf (t ++ newline ∷ rest) ≡ (t, (split_conf rest).0 ∷ (split_conf rest).1)
unfolding split_conf
split-append [] rest h m = ground arith
split-append (c ∷ t) rest h m =
    ground (
      arith,
      split-append t rest,
      starts_with-append_sep peer_mark t newline rest no_newline_in_mark,
    )

rstrip-IsPart : (t : Text) → IsPart t → IsPart (rstrip_newlines t)
unfolding split_conf rstrip_newlines
rstrip-IsPart [] h = h
rstrip-IsPart (c ∷ t) h =
    ground (arith, rstrip-IsPart t, starts_with-rstrip_newlines peer_mark t no_newline_in_mark)

append_newline-IsPart : (t : Text) → IsPart t → IsPart (t ++ newline ∷ [])
unfolding split_conf
append_newline-IsPart [] h = ground (arith, no_mark_at_end)
append_newline-IsPart (c ∷ t) h = ground (
  arith,
  append_newline-IsPart t,
  starts_with-append_sep peer_mark t newline [] no_newline_in_mark,
)

pub line_end-IsPart : (t : Text) → IsPart t → IsPart (line_end t)
line_end-IsPart t h = append_newline-IsPart (rstrip_newlines t) (rstrip-IsPart t h)

starts_with-line_end :
    (t rest : Text)
    → starts_with peer_mark t ≡ true
    → starts_with peer_mark (line_end t ++ rest) ≡ true
starts_with-line_end t rest h = rw append_assoc (
    starts_with-append_sep peer_mark (rstrip_newlines t) newline rest no_newline_in_mark
    ∙ starts_with-rstrip_newlines peer_mark t no_newline_in_mark
    ∙ h)

pub line_end-IsBlock : (t : Text) → IsBlock t → IsBlock (line_end t)
line_end-IsBlock t h = (line_end-IsPart t h.0, rw append-nil at (starts_with-line_end t [] h.1))

split-part_blocks :
    (t : Text) (blocks : List Text)
    → IsPart t
    → All IsBlock blocks
    → split_conf (t ++ rebuild_blocks blocks) ≡ (t, map line_end blocks)
unfolding rebuild_blocks
split-part_blocks t [] h k = rw append-nil h
split-part_blocks t (b ∷ blocks) h (kb, ks) =
    split-append t (line_end b ++ rebuild_blocks blocks) h
      (starts_with-line_end b (rebuild_blocks blocks) kb.1)
    ∙ rw (split-part_blocks (line_end b) blocks (line_end-IsPart b kb.0) ks)

-- Of a header part and peer blocks, as `_split_conf` gives them, `_rebuild_conf` makes a text that
-- `_split_conf` takes apart into the same parts, each with its trailing newlines made one.
pub split-rebuild :
    (header : Text) (blocks : List Text)
    → IsPart header
    → All IsBlock blocks
    → split_conf (rebuild_conf header blocks) ≡ (line_end header, map line_end blocks)
unfolding rebuild_conf
split-rebuild header blocks h k =
    split-part_blocks (line_end header) blocks (line_end-IsPart header h) k

starts_with-split :
    (p t : Text) → elem newline p ≡ false → starts_with p (split_conf t).0 ≡ starts_with p t
unfolding starts_with split_conf elem
starts_with-split [] t h = refl
starts_with-split (x ∷ p) [] h = refl
starts_with-split (x ∷ p) (c ∷ t) h = ground (arith, starts_with-split p t)

-- Whatever the file holds, what `_split_conf` gives is a part, in which nothing splits, and then
-- peer blocks, each of which begins with `[Peer]` and in which nothing splits.
pub split-IsBlock : (t : Text) → IsPart (split_conf t).0 × All IsBlock (split_conf t).1
unfolding split_conf
split-IsBlock [] = (refl, tt)
split-IsBlock (c ∷ t) =
    ground (arith, split-IsBlock t, starts_with-split peer_mark t no_newline_in_mark)

pub line_end_idem : (t : Text) → line_end (line_end t) ≡ line_end t
line_end_idem t = rw (rstrip_newlines-append t)

rebuild_blocks-line_end :
    (blocks : List Text) → rebuild_blocks (map line_end blocks) ≡ rebuild_blocks blocks
unfolding rebuild_blocks
rebuild_blocks-line_end [] = refl
rebuild_blocks-line_end (b ∷ blocks) = rw (line_end_idem b, rebuild_blocks-line_end blocks)

-- Splitting a file and writing its parts back.
abbrev pub normalise : Text → Text
normalise content = rebuild_conf (split_conf content).0 (split_conf content).1

-- A file that the daemon has once rewritten is a fixed point: splitting it and writing its parts
-- back gives the same text, whatever the file was before.
pub normalise_idem : (content : Text) → normalise (normalise content) ≡ normalise content
unfolding rebuild_conf
normalise_idem content =
    let parts = split-IsBlock content in
    rw (split-rebuild (split_conf content).0 (split_conf content).1 parts.0 parts.1)
      (rw (line_end_idem (split_conf content).0, rebuild_blocks-line_end (split_conf content).1))
