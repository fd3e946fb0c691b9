-- ===== src/Cwd/Tests.antt =====
-- relay/internal/session/cwdtracker.go: runs on concrete output.
use httpssh.Base.{
  ◌≡◌, refl, arith, true, List, [], ◌∷◌, ◌++◌, concat, Text, codes, has_prefix, trim_space, trim,
  space_width, last_space_width, byte_width,
}
use httpssh.Cwd.{new_cwd_tracker, cwd_max_body, parse_osc99, step, feed}
use httpssh.Cwd.Chunks.{feed_all, feed_all-concat}
use httpssh.Cwd.Sequence.{bel, st, osc}
use httpssh.Cwd.Directory.{IsDirectory}
use httpssh.Cwd.Announce.{osc99, feed-osc99, feed_broken}

abbrev home : Text
home = codes "C:\\Users\\me"

abbrev two_reads : List Text
two_reads = (0x1b ∷ codes "]9;9;C:") ∷ (codes "\\Users" ++ (0x07 ∷ [])) ∷ []

feed_all-concat_example :
    feed_all new_cwd_tracker two_reads ≡ feed new_cwd_tracker (concat two_reads)
feed_all-concat_example = feed_all-concat new_cwd_tracker two_reads

home-IsDirectory : IsDirectory home
home-IsDirectory = record {
  quiet = ground arith;
  ne_nil = λ e. cc;
  first_no_space = unfold space_width in refl;
  last_no_space = unfold last_space_width in refl;
  first_no_quote = unfold byte_width in refl;
  last_no_quote = unfold byte_width in refl;
}

feed-osc99_example :
    feed new_cwd_tracker (codes "ok\n" ++ (osc (osc99 true home) st ++ codes "> "))
    ≡ (new_cwd_tracker, home ∷ [])
feed-osc99_example =
    feed-osc99 true home (codes "ok\n") (codes "> ") st home-IsDirectory
      (unfold cwd_max_body in omega arith) (ground arith) (ground arith)

feed_broken_example :
    feed new_cwd_tracker ((0x1b ∷ 0x5d ∷ codes "0;title") ++ osc (codes "9;9;C:\\") bel)
    ≡ (new_cwd_tracker, [])
feed_broken_example =
    feed_broken [] (codes "0;title") (codes "9;9;C:\\") (ground arith) (ground arith)

reads_home :
    feed new_cwd_tracker (0x1b ∷ codes "]9;9;/home" ++ (0x07 ∷ []))
    ≡ (new_cwd_tracker, codes "/home" ∷ [])
unfolding feed step parse_osc99 cwd_max_body has_prefix trim_space trim space_width last_space_width
    byte_width
reads_home = refl
