-- ===== src/Http.antt =====
-- xupeng/http/http.h and http.cc: the maps of headers, parameters and cookies, and the requests that
-- hold them. A `std::string` is the list of its bytes, and a `std::map` the list of its entries in
-- their order.
pub mod Map
pub mod Methods
pub mod Request
pub mod Printing
mod Examples
