-- ===== src/Tests/Wrappers.antt =====
-- tools/firmware_test/flash_helper.py at concrete nodes and answers.
use ifs_hil.Prelude.{◌≡◌, refl, true, false, List, [], ◌∷◌, none, some}
use ifs_hil.Prelude.Int.{pos}
use ifs_hil.Prelude.Text.{Text, lit, same, strip, lstrip, rstrip}
use ifs_hil.Prelude.Numerals.{decimal, digits}
use ifs_hil.Flasher.Rows.{
  DiscoveredNode, parse_row, span_word, tail_of, lazily, after_spaces, count_spaces,
}
use ifs_hil.Flasher.Command.{
  CanFlasher, Process, value, flasher_error, Spawned, ended, discover, flash, hex_from,
}
use ifs_hil.Flasher.Printed.{InLine, Row, IsRow}
use ifs_hil.Flasher.Listed.{Line, node, other, listing, nodes, discover-listing}

abbrev flasher : CanFlasher
flasher = record {
  channel = lit "can2";
  bitrate = 500000;
  node_id = 0x1F;
  discover_timeout_ms = 3000;
  per_frame_timeout_ms = 30000;
  binary = lit "can-flasher";
}

-- The table of docs/getting-started.md.
abbrev fresh : Row
fresh = record {
  id = lit "01";
  id_gap = 1;
  proto = lit "0.1";
  proto_gap = 3;
  fw = lit "no app installed";
  fw_gap = 0;
  git = lit "—";
  git_gap = 8;
  product = lit "—";
  product_gap = 7;
  wrp = lit "✗";
  wrp_gap = 3;
  cause = lit "PIN";
}

abbrev table : List Line
table =
    other (lit "Node  Proto  FW Version        Git Hash  Product  WRP  Reset Cause")
    ∷ node fresh
    ∷ []

abbrev answered : List Text → Spawned
answered cmd = ended (record { returncode = pos 0; stdout = listing table; stderr = [] })

abbrev blank_node : DiscoveredNode
blank_node = record {
  node_id = 1;
  proto = lit "2";
  fw_version = [];
  git_hash = lit "a";
  product = lit "b";
  wrp = false;
  reset_cause = lit "d";
}

abbrev failure : Process
failure = record { returncode = pos 1; stdout = []; stderr = lit "NO_VALID_APP" }

abbrev failing : List Text → Spawned
failing cmd = ended failure

abbrev refused_args : List Text
refused_args =
    lit "can-flasher"
    ∷ lit "--interface"
    ∷ lit "socketcan"
    ∷ lit "--channel"
    ∷ lit "can2"
    ∷ lit "--bitrate"
    ∷ lit "500000"
    ∷ lit "--node-id"
    ∷ lit "0x1F"
    ∷ lit "--timeout"
    ∷ lit "30000"
    ∷ lit "flash"
    ∷ lit "a.bin"
    ∷ lit "--address"
    ∷ lit "0x10"
    ∷ lit "--verify-after"
    ∷ []

header-InLine : InLine (lit "Node  Proto  FW Version        Git Hash  Product  WRP  Reset Cause")
header-InLine = (
  refl,
  (
    refl,
    (
      refl,
      (
        refl,
        (
          refl,
          (
            refl,
            (
              refl,
              (
                refl,
                (
                  refl,
                  (
                    refl,
                    (
                      refl,
                      (
                        refl,
                        (
                          refl,
                          (
                            refl,
                            (
                              refl,
                              (
                                refl,
                                (
                                  refl,
                                  (
                                    refl,
                                    (
                                      refl,
                                      (
                                        refl,
                                        (
                                          refl,
                                          (
                                            refl,
                                            (
                                              refl,
                                              (
                                                refl,
                                                (
                                                  refl,
                                                  (
                                                    refl,
                                                    (
                                                      refl,
                                                      (
                                                        refl,
                                                        (
                                                          refl,
                                                          (
                                                            refl,
                                                            (
                                                            refl,
                                                            (
                                                            refl,
                                                            (
                                                            refl,
                                                            (
                                                            refl,
                                                            (
                                                            refl,
                                                            (
                                                            refl,
                                                            (
                                                            refl,
                                                            (
                                                            refl,
                                                            (
                                                            refl,
                                                            (
                                                            refl,
                                                            (
                                                            refl,
                                                            (
                                                            refl,
                                                            (
                                                            refl,
                                                            (
                                                            refl,
                                                            (
                                                            refl,
                                                            (
                                                            refl,
                                                            (
                                                            refl,
                                                            (
                                                            refl,
                                                            (
                                                            refl,
                                                            (
                                                            refl,
                                                            (
                                                            refl,
                                                            (
                                                            refl,
                                                            (
                                                            refl,
                                                            (
                                                            refl,
                                                            (
                                                            refl,
                                                            (
                                                            refl,
                                                            (
                                                            refl,
                                                            (
                                                            refl,
                                                            (
                                                            refl,
                                                            (
                                                            refl,
                                                            (
                                                            refl,
                                                            (
                                                            refl,
                                                            (refl, (refl, (refl, (refl, tt)))),
                                                            ),
                                                            ),
                                                            ),
                                                            ),
                                                            ),
                                                            ),
                                                            ),
                                                            ),
                                                            ),
                                                            ),
                                                            ),
                                                            ),
                                                            ),
                                                            ),
                                                            ),
                                                            ),
                                                            ),
                                                            ),
                                                            ),
                                                            ),
                                                            ),
                                                            ),
                                                            ),
                                                            ),
                                                            ),
                                                            ),
                                                            ),
                                                            ),
                                                            ),
                                                            ),
                                                            ),
                                                            ),
                                                          ),
                                                        ),
                                                      ),
                                                    ),
                                                  ),
                                                ),
                                              ),
                                            ),
                                          ),
                                        ),
                                      ),
                                    ),
                                  ),
                                ),
                              ),
                            ),
                          ),
                        ),
                      ),
                    ),
                  ),
                ),
              ),
            ),
          ),
        ),
      ),
    ),
  ),
)

fresh-IsRow : IsRow fresh
fresh-IsRow = record {
  hex = (refl, (refl, tt));
  some_hex = λ e. cc;
  proto_word = (refl, (refl, (refl, tt)));
  fw_phrase = (
    refl,
    (
      refl,
      (
        refl,
        (
          refl,
          (
            refl,
            (
              refl,
              (refl, (refl, (refl, (refl, (refl, (refl, (refl, (refl, (refl, (refl, refl)))))))))),
            ),
          ),
        ),
      ),
    ),
    (
      refl,
      (
        refl,
        (
          refl,
          (
            refl,
            (
              refl,
              (
                refl,
                (refl, (refl, (refl, (refl, (refl, (refl, (refl, (refl, (refl, (refl, tt)))))))))),
              ),
            ),
          ),
        ),
      ),
    ),
  );
  git_word = (refl, tt);
  product_word = (refl, tt);
  wrp_word = (refl, tt);
  cause_phrase = (refl, (refl, (refl, refl)), (refl, (refl, (refl, tt))));
}

discover-listing_example : discover flasher answered none ≡ value (nodes table)
discover-listing_example =
    discover-listing flasher answered none table [] ((header-InLine, refl), (fresh-IsRow, tt)) refl
      refl

-- The column of the version may be blank: the expression then takes a space for it.
blank : parse_row (lit "0x1 2    a b c d") ≡ some blank_node
unfolding parse_row span_word tail_of lazily after_spaces count_spaces strip lstrip rstrip same
blank = refl

refused :
    flash flasher failing (lit "a.bin") 0x10 true false [] ≡ flasher_error refused_args failure
unfolding flash hex_from decimal digits
refused = refl
