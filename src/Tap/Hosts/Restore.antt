-- ===== src/Tap/Hosts/Restore.antt =====
-- Installing the block and removing it again gives the hosts file back.
use acars_printer.Prelude.{
  ℕ, ◌≡◌, refl, sym, ap, ◌∙◌, true, false, List, [], ◌∷◌, ◌++◌, map, All, All-append, append-nil,
}
use acars_printer.Text.{Text, rstrip, is_space}
use acars_printer.Tap.Hosts.{
  marker_begin, marker_end, comment_line, host_line, render_block, is_break, lines_of, kept_lines,
  remove_tap_block, ends_line, install_tap_hosts, remove_tap_hosts,
}
use acars_printer.Tap.Hosts.Removal.{
  ended, file_of, Unbroken, is_plain, stays_inside, lines_of-file_of, kept_lines-plain,
  join-file_of, kept_lines-block,
}

ends_line-append : (s : Text) (c : ℕ) (t : Text) → ends_line (s ++ c ∷ t) ≡ ends_line (c ∷ t)
unfolding ends_line
ends_line-append [] c t = refl
ends_line-append (d ∷ []) c t = refl
ends_line-append (d ∷ e ∷ s) c t = ends_line-append (e ∷ s) c t

ends_line-file_of : (lines : List Text) → ends_line (b'\n' ∷ file_of lines) ≡ true
ends_line-file_of [] = unfold ends_line in refl
ends_line-file_of (line ∷ lines) =
    ends_line-append (b'\n' ∷ line) b'\n' (file_of lines) ∙ ends_line-file_of lines

rstrip-newline : (s : Text) → rstrip (s ++ b'\n' ∷ []) ≡ rstrip s
unfolding rstrip is_space
rstrip-newline [] = refl
rstrip-newline (c ∷ s) = rw (rstrip-newline s)

lines_of_whole :
    (lines : List Text) → All Unbroken lines → lines_of (file_of lines) ≡ map ended lines
lines_of_whole lines h =
    ap lines_of (sym (append-nil (file_of lines)))
    ∙ lines_of-file_of lines [] h
    ∙ (unfold lines_of in append-nil (map ended lines))

marker_begin-Unbroken : Unbroken marker_begin
unfolding is_break
marker_begin-Unbroken = refl

comment_line-Unbroken : Unbroken comment_line
unfolding is_break
comment_line-Unbroken = refl

marker_end-Unbroken : Unbroken marker_end
unfolding is_break
marker_end-Unbroken = refl

module _ (redirect_ip : Text) (hosts : List Text)
    (whole : All Unbroken (map (host_line redirect_ip) hosts))
    (inside : All (λ line. stays_inside line ≡ true) (map (host_line redirect_ip) hosts)) where
  abbrev block : List Text
  block = marker_begin ∷ comment_line ∷ (map (host_line redirect_ip) hosts ++ marker_end ∷ [])

  render_block-file_of : render_block redirect_ip hosts ≡ file_of block
  unfolding render_block
  render_block-file_of =
      join-file_of marker_begin
        (comment_line ∷ (map (host_line redirect_ip) hosts ++ marker_end ∷ []))

  block-Unbroken : All Unbroken ([] ∷ block)
  block-Unbroken = (
    refl,
    (
      marker_begin-Unbroken,
      (
        comment_line-Unbroken,
        All-append Unbroken (map (host_line redirect_ip) hosts) (marker_end ∷ []) whole
            (marker_end-Unbroken, tt),
      ),
    ),
  )

  remove_tap_block-render :
      (lines : List Text)
      → All Unbroken lines
      → All (λ line. is_plain line ≡ true) lines
      → remove_tap_block (file_of lines ++ (b'\n' ∷ render_block redirect_ip hosts))
        ≡ file_of lines ++ b'\n' ∷ []
  unfolding remove_tap_block
  remove_tap_block-render lines unbroken plain =
      ap (λ r. kept_lines false (lines_of (file_of lines ++ (b'\n' ∷ r)))) render_block-file_of
      ∙ ap (kept_lines false) (lines_of-file_of lines (file_of ([] ∷ block)) unbroken)
      ∙ ap (λ ls. kept_lines false (map ended lines ++ ls))
          (lines_of_whole ([] ∷ block) block-Unbroken)
      ∙ kept_lines-plain lines (map ended ([] ∷ block)) plain
      ∙ ap (λ r. file_of lines ++ r) (kept_lines-block (map (host_line redirect_ip) hosts) inside)

  remove_tap_block-plain :
      (lines : List Text)
      → All Unbroken lines
      → All (λ line. is_plain line ≡ true) lines
      → remove_tap_block (file_of lines) ≡ file_of lines
  unfolding remove_tap_block
  remove_tap_block-plain lines unbroken plain =
      ap (kept_lines false) (lines_of_whole lines unbroken ∙ sym (append-nil (map ended lines)))
      ∙ kept_lines-plain lines [] plain
      ∙ (unfold kept_lines in append-nil (file_of lines))

  -- A hosts file of some lines, none of them a marker of the block, is given back up to the space at
  -- its end when the block is installed and removed again, for host lines with no break in them that
  -- do not read as the end marker.
  pub remove_tap_hosts-install :
      (line : Text) (lines : List Text)
      → All Unbroken (line ∷ lines)
      → All (λ l. is_plain l ≡ true) (line ∷ lines)
      → remove_tap_hosts (install_tap_hosts redirect_ip hosts (file_of (line ∷ lines)))
        ≡ rstrip (file_of (line ∷ lines)) ++ b'\n' ∷ []
  unfolding remove_tap_hosts install_tap_hosts
  remove_tap_hosts-install line lines unbroken plain =
      let file = file_of (line ∷ lines) in
      let same = remove_tap_block-plain (line ∷ lines) unbroken plain in
      let closed : ends_line file ≡ true =
        ends_line-append line b'\n' (file_of lines) ∙ ends_line-file_of lines in
      let gone = remove_tap_block-render (line ∷ lines) unbroken plain in
      rw (same, closed)
        (ap (λ r. rstrip r ++ b'\n' ∷ []) gone ∙ ap (λ r. r ++ b'\n' ∷ []) (rstrip-newline file))
