-- ===== src/Web/Members/Add/Laws.antt =====
-- What the form sends.
use postal.Prelude.{String, ◌≡◌, not, is_some, arith}
use postal.Web.Members.Add.{Form, toggle_custom, on_submit}

-- The form sends a role or a list of capabilities, and never both: the capabilities that are checked, where
-- the permissions are customized, and the chosen role elsewhere. Changing back to a role sends that
-- role, though the capabilities stay checked.
pub on_submit-either :
    (email : String) (f : Form)
    → (is_some (on_submit email f).1.role ≡ not (is_some (on_submit email f).1.capabilities))
      × ((on_submit email (toggle_custom (toggle_custom f))).1 ≡ (on_submit email f).1)
unfolding on_submit toggle_custom
on_submit-either email f = (ground arith, ground arith)
