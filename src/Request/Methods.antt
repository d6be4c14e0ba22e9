-- ===== src/Request/Methods.antt =====
-- The methods of http_request.cpp.
use server_coursework.Base.{codes}
use server_coursework.Request.{RequestMethod}

abbrev pub get : RequestMethod
get = record { description = codes "GET" }

abbrev pub post : RequestMethod
post = record { description = codes "POST" }

abbrev pub head : RequestMethod
head = record { description = codes "HEAD" }

abbrev pub put : RequestMethod
put = record { description = codes "PUT" }

abbrev pub delete : RequestMethod
delete = record { description = codes "DELETE" }

abbrev pub trace : RequestMethod
trace = record { description = codes "TRACE" }

abbrev pub connect : RequestMethod
connect = record { description = codes "CONNECT" }
