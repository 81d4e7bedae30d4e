-- ===== src/Tests/Captures.antt =====
-- Runs of onstep_adapter/capture/stream.py.
use on_step_adapter.Base.{◌≡◌, refl, arith, false, none, some, List, [], ◌∷◌, ◌++◌, map, keep_if}
use on_step_adapter.Base.Text.{Text, codes}
use on_step_adapter.Capture.{
  Writer, Node, lx200, c2s, s2c, connect, data_seen, lx_command, sent, received, elements, send,
  recv, known, updated, forbidden_indi, forbidden_lx200, lx200_bytes, keep_frames, frames, cut,
  record_frames, record_frame,
}
use on_step_adapter.Capture.Framing.{scan}
use on_step_adapter.Capture.Chunks.{concat, entry_of, is_marked, feed, commands_of_chunks}

abbrev empty_writer : Writer
empty_writer = record {
  protocol = λ k. none;
  lx_buffer = λ k. [];
  props = λ k d n. none;
  forbidden = [];
  records = [];
}

abbrev opened : Writer
opened = connect 1 lx200 empty_writer

-- Two commands in three chunks, the second one forbidden.
abbrev three_chunks : List Text
three_chunks = codes ":G" ∷ codes "U#:hQ" ∷ codes "#" ∷ []

three_chunks_run :
    (feed 1 three_chunks opened).forbidden
    ≡ lx_command 1 (codes ":hQ#") (some "SET PARK (:hQ#)") ∷ []
unfolding feed data_seen lx200_bytes keep_frames frames cut record_frames record_frame
    forbidden_lx200 connect
three_chunks_run = refl

commands_of_chunks_example :
    ((feed 1 three_chunks opened).records
      ≡ opened.records ++ map (entry_of 1) (scan [] (concat three_chunks)).0)
    × ((feed 1 three_chunks opened).forbidden
        ≡ opened.forbidden
          ++ keep_if is_marked (map (entry_of 1) (scan [] (concat three_chunks)).0))
unfolding connect
commands_of_chunks_example = commands_of_chunks 1 three_chunks opened refl refl (omega arith)

abbrev park_option : Node
park_option = record {
  tag = codes "newSwitchVector";
  device = codes "OnStep";
  name = codes "TELESCOPE_PARK_OPTION";
  state = [];
  values = (codes "PARK_CURRENT", codes "On") ∷ [];
}

set_park_marked :
    (data_seen 2 c2s [] (park_option ∷ []) false empty_writer).forbidden
    ≡ sent 2 park_option (some "SET PARK") ∷ []
unfolding data_seen elements send forbidden_indi
set_park_marked = refl

abbrev defined : Node
defined = record {
  tag = codes "defNumberVector";
  device = codes "OnStep";
  name = codes "HORIZON";
  state = codes "Ok";
  values = (codes "ALT", codes "10") ∷ (codes "AZ", codes "20") ∷ [];
}

abbrev changed_az : Node
changed_az = record defined {
  tag = codes "setNumberVector";
  values = (codes "AZ", codes "21") ∷ (codes "ALT", codes "10") ∷ [];
}

-- A definition and an update: the second record changes one value and has revision 2.
update_recorded :
    (data_seen 2 s2c [] (defined ∷ changed_az ∷ []) false empty_writer).records
    ≡ received 2 defined
        (record { kind = codes "Number"; values = defined.values; revision = 1 })
        defined.values
      ∷ received 2 changed_az
          (record {
            kind = codes "Number";
            values = (codes "ALT", codes "10") ∷ (codes "AZ", codes "21") ∷ [];
            revision = 2;
          })
          ((codes "AZ", codes "21") ∷ [])
      ∷ []
unfolding data_seen elements recv known updated
update_recorded = refl
