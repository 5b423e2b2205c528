-- ===== src/Tests/Children.antt =====
-- A sample child of src/main.cpp that cannot open its file for standard error.
use gravelbox.Base.{codes, some}
use gravelbox.Utils.{done, errno}
use gravelbox.Tracer.Child.{ChildReplies}
use gravelbox.Program.Options.{Options}
use gravelbox.Tests.Programs.{options}

abbrev redirecting : Options
redirecting = record options { std_out = some (codes "out"); std_err = some (codes "/err") }

abbrev refused : ChildReplies
refused = record {
  traceme = done tt;
  raised = done tt;
  open_in = errno 2;
  dup_in = errno 2;
  open_out = done 7;
  dup_out = done 1;
  open_err = errno 13;
  dup_err = errno 9;
  replaced = done tt;
}
