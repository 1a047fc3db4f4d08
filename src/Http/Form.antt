-- ===== src/Http/Form.antt =====
-- bomba_http.hpp, HtmlMessageEncoding: the members of an HTML form as a format.
pub mod Input
pub mod Output
pub mod Format
