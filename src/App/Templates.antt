-- ===== src/App/Templates.antt =====
-- The HTML that web/src/main.js, web/src/terminal.js and web/src/files.js set as a whole, and the
-- elements that the code looks up in it.
pub mod Lookups
use claude_docker.Common.{Bool, true, false, List, [], ◌∷◌, ◌++◌, if◌then◌else◌}
use claude_docker.Text.{Text, codes, text_eq, concat}
use claude_docker.Files.View.{ViewMode, list_view, grid_view}

-- renderApp()
abbrev shell_html_parts : List Text
shell_html_parts =
    codes "\n    <aside class=\"sidebar\" id=\"sb\"></aside>\n    <section class=\"main\">"
    ∷ codes "\n      <header class=\"topbar\"><button class=\"menu-btn\" id=\"menu\">≡"
    ∷ codes "</button><h1 id=\"title\">Terminal</h1><span class=\"grow\"></span>"
    ∷ codes "<span class=\"nav-who\" id=\"who\"></span></header>\n      "
    ∷ codes "<div class=\"content\" id=\"view\"></div>\n    </section>"
    ∷ []

unfoldable pub shell_html : Text
shell_html = concat shell_html_parts

-- viewTraffic
abbrev traffic_html_parts : List Text
traffic_html_parts =
    codes "<div class=\"meters\" id=\"meters\"><span class=\"muted\">Loading…</span></div>"
    ∷ codes "\n    <div class=\"card pads\" style=\"margin-top:14px\">"
    ∷ codes "<h3 style=\"margin:0 0 "
    ∷ codes "10px;font-size:13px;text-transform:uppercase;letter-spacing:.5px;color:var"
    ∷ codes "(--text-faint)\">Monthly traffic</h3><div id=\"trows\" class=\"muted\">—</div>"
    ∷ codes "</div>"
    ∷ []

unfoldable pub traffic_html : Text
traffic_html = concat traffic_html_parts

-- viewAdminUsers
abbrev users_html_parts : List Text
users_html_parts =
    codes "<div class=\"card pads\" style=\"margin-bottom:12px\">\n      <div class=\"row\">"
    ∷ codes "\n        <div style=\"flex:1\"><div class=\"lbl\">Anthropic auth token</div>"
    ∷ codes "\n          "
    ∷ codes "<input class=\"field\" id=\"anth-auth-token\" type=\"password\" "
    ∷ codes "placeholder=\"sk-ant-oat01-...\" autocomplete=\"off\"></div>\n        "
    ∷ codes "<span class=\"grow\"></span>\n        <button class=\"btn\" id=\"anth-save\">Save"
    ∷ codes "</button>\n      </div>\n      <p class=\"muted tiny\" style=\"margin:8px 0 0\">"
    ∷ codes "Injected as <code>ANTHROPIC_AUTH_TOKEN</code>"
    ∷ codes " into every non-admin user's terminal. Leave empty to not inject.</p>\n    "
    ∷ codes "</div>\n    <div class=\"row\"><span class=\"grow\"></span>"
    ∷ codes "<button class=\"btn\" id=\"add-user\">+ New user</button></div>\n    "
    ∷ codes "<div class=\"card\" style=\"margin-top:12px;overflow:auto\">"
    ∷ codes "<table class=\"tbl\"><thead><tr>\n      <th>User</th><th>Role</th><th>Status"
    ∷ codes "</th><th>Disk</th><th>Traffic</th><th>Sessions</th><th>Last login</th><th>"
    ∷ codes "</th>\n    </tr></thead><tbody id=\"utbody\"></tbody></table></div>"
    ∷ []

unfoldable pub users_html : Text
users_html = concat users_html_parts

-- userModal
abbrev modal_html_parts : List Text
modal_html_parts =
    codes "<div class=\"hd\"><b>New user</b></div><div class=\"bd\">\n    "
    ∷ codes "<label class=\"lbl\">Username</label>"
    ∷ codes "<input class=\"field\" id=\"nu\" placeholder=\"alice\"><div style=\"height:8px\">"
    ∷ codes "</div>\n    <label class=\"lbl\">Initial password</label>"
    ∷ codes "<input class=\"field\" id=\"np\" type=\"password\" placeholder=\"(user must "
    ∷ codes "change on first login)\"><div style=\"height:8px\"></div>\n    "
    ∷ codes "<label class=\"lbl\">Role</label><select class=\"field\" id=\"nr\">"
    ∷ codes "<option value=\"user\">user</option><option value=\"admin\">admin</option>"
    ∷ codes "</select>\n    <div style=\"height:14px\"></div><button class=\"btn\" id=\"nc\">"
    ∷ codes "Create</button> <button class=\"btn ghost\" id=\"nx\">Cancel</button>\n    "
    ∷ codes "<p class=\"muted tiny\" id=\"ne\" style=\"margin-top:8px\"></p></div>"
    ∷ []

unfoldable pub modal_html : Text
modal_html = concat modal_html_parts

-- viewAudit
abbrev audit_html_parts : List Text
audit_html_parts =
    codes "<div class=\"card\" style=\"overflow:auto\"><table class=\"tbl\"><thead><tr>"
    ∷ codes "\n    <th>Time</th><th>User</th><th>IP</th><th>Result</th><th>User-Agent"
    ∷ codes "</th>\n    </tr></thead><tbody id=\"abody\"></tbody></table></div>"
    ∷ []

unfoldable pub audit_html : Text
audit_html = concat audit_html_parts

-- mountTerminal: the hint for administrators.
abbrev hint_parts : List Text
hint_parts =
    codes "<div class=\"term-hint muted tiny\">登录 claude 前先执行：<code>"
    ∷ codes "unset ALL_PROXY all_proxy HTTP_PROXY HTTPS_PROXY http_proxy https_proxy"
    ∷ codes "</code>（否则会报 protocol mismatch）</div>"
    ∷ []

abbrev pub hint_html : Text → Text
hint_html role = if text_eq role (codes "admin") then concat hint_parts else []

unfoldable pub terminal_html : Text → Text
terminal_html role = concat (
    codes "\n    <div class=\"term-wrap\">\n      "
    ∷ hint_html role
    ∷ codes "\n      <div class=\"term-body\" id=\"termroot\"></div>\n    </div>\n    "
    ∷ codes "<div class=\"row\" style=\"margin-top:8px\">\n      "
    ∷ codes "<button class=\"btn danger tiny\" id=\"kill-sess\">Restart terminal</button>"
    ∷ codes "\n      <span class=\"muted tiny\" id=\"term-status\"></span>\n    </div>"
    ∷ [])

-- mount() of class FileView.
abbrev pub mode_glyph : ViewMode → Text
mode_glyph grid_view = codes "≣"
mode_glyph list_view = codes "☰"

unfoldable pub files_html : ViewMode → Text
files_html mode = concat (
    codes "\n      <div class=\"fm\">\n        <div class=\"fm-tree\" id=\"fm-tree\"></div>"
    ∷ codes "\n        <div class=\"fm-main\">\n          <div class=\"fm-toolbar\">"
    ∷ codes "\n            "
    ∷ codes "<button class=\"btn tiny ghost\" id=\"fm-back\" title=\"Back (Alt+←)\">←"
    ∷ codes "</button>\n            "
    ∷ codes "<button class=\"btn tiny ghost\" id=\"fm-fwd\" title=\"Forward (Alt+→)\">→"
    ∷ codes "</button>\n            "
    ∷ codes "<button class=\"btn tiny ghost\" id=\"fm-up\" title=\"Up (Backspace)\">↑"
    ∷ codes "</button>\n            <div class=\"crumbs\" id=\"fm-crumbs\"></div>"
    ∷ codes "\n            <span class=\"grow\"></span>\n            "
    ∷ codes "<input class=\"field fm-search\" id=\"fm-search\" placeholder=\"filter\" "
    ∷ codes "style=\"max-width:160px\">\n            "
    ∷ codes "<button class=\"btn tiny ghost\" id=\"fm-view\" title=\"Toggle view (v)\">"
    ∷ mode_glyph mode
    ∷ codes "</button>\n            <button class=\"btn tiny ghost\" id=\"fm-mkdir\">"
    ∷ codes "+ Folder</button>\n            <button class=\"btn tiny\" id=\"fm-upload\">"
    ∷ codes "↑ Upload</button>\n          </div>\n          "
    ∷ codes "<div class=\"fm-status\" id=\"fm-status\"></div>\n          "
    ∷ codes "<div class=\"fm-drop\" id=\"fm-drop\"></div>\n        </div>\n      </div>"
    ∷ codes "\n      "
    ∷ codes "<input type=\"file\" id=\"fm-file-input\" multiple style=\"display:none\">"
    ∷ [])
