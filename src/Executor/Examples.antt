-- ===== src/Executor/Examples.antt =====
-- A conversion of one file (internal/executor): the theorems at inputs that meet their hypotheses.
use slipway.Common.{
  pos, Text, codes, none, some, List, [], ◌∷◌, ◌++◌, map, ◌≡◌, refl, ltb, length, take,
  if◌then◌else◌,
}
use slipway.Executor.Capture.{new_limited_buffer, write_all, captured, truncation_marker}
use slipway.Executor.Captured.{concat, write_all-captured}
use slipway.Executor.Expander.{TemplateData, new_expander, expand}
use slipway.Executor.Expanded.{
  Piece, byte, file_name, stem_name, written, meaning, IsPlainText, expand-written,
}
use slipway.Executor.Execute.{Command, Host, Ran, open_output, execute}
use slipway.Executor.Outcomes.{IsReported, execute-IsReported}

abbrev chunks : List Text
chunks = codes "abc" ∷ codes "defg" ∷ []

write_all-captured_example :
    ((write_all (new_limited_buffer 5) chunks).0 ≡ map length chunks)
    × (captured (write_all (new_limited_buffer 5) chunks).1 ≡ (
        if ltb 5 (length (concat chunks))
        then take 5 (concat chunks) ++ truncation_marker 5
        else concat chunks))
write_all-captured_example = write_all-captured 5 chunks

abbrev home : Text × Text
home = (codes "HOME", codes "/tmp")

abbrev lang : Text × Text
lang = (codes "LANG", codes "C")

abbrev inherited : List Text
inherited = codes "HOME=/root" ∷ codes "broken" ∷ codes "PATH=/bin" ∷ []

abbrev job : TemplateData
job = record { file = codes "/in/{{ext}}.csv"; job_id = 7 }

-- A brace of its own, and a file that is called like a template.
abbrev pieces : List Piece
pieces = byte 123 ∷ byte 58 ∷ stem_name ∷ byte 46 ∷ file_name ∷ []

expand-written_example : expand (new_expander job) (written pieces) ≡ meaning job pieces
unfolding written IsPlainText
expand-written_example = expand-written job pieces (refl, (refl, (tt, (refl, (tt, tt)))))

abbrev convert : Command
convert = record {
  name = codes "convert";
  program = codes "conv";
  args = [];
  timeout = pos 0;
  working_dir = codes "/work";
  output = codes "out.txt";
  env = home ∷ [];
}

abbrev ran : Ran
ran = record {
  started_at = 1;
  finished_at = 2;
  stdout = chunks;
  stderr = [];
  run_error = none;
  cleanup_error = none;
  close_error = none;
  exit_code = some (pos 0);
  run_context = none;
  context = none;
}

abbrev host : Host
host = record { environ = inherited; open_file = λ path. none; run_process = λ p. ran }

execute-IsReported_example :
    IsReported host convert (open_output host convert) (execute host convert)
execute-IsReported_example = execute-IsReported host convert
